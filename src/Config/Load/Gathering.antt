-- ===== src/Config/Load/Gathering.antt =====
-- What holds of the apps that `Load` has gathered, file by file.
use ooth.Prelude.{
  ◌≡◌, ◌≢◌, refl, sym, ◌∙◌, ap, inl, inr, ◌⊎◌, true, not, ◌&&◌, Bool-cases, Option, none, some,
  List, [], ◌∷◌, ◌++◌, is_empty, In, ok, refuse_if-passed, wrap, >>=-eq-ok, ok_inj, err-ne-ok,
}
use mathlib.Core.Path.{subst}
use ooth.Prelude.Texts.{Text, text_eq, text_eq_refl}
use ooth.Prelude.Maps.{insert}
use ooth.Config.App.{App, Socket}
use ooth.Config.Roots.{watch_root, expand_glob}
use ooth.Config.Templates.{resolve}
use ooth.Config.Sources.{Sources, Loading, listener, new_app, invalid_root}
use ooth.Config.Load.{named, add_named, load_read, load_files, load_found, load_patterns}
use ooth.Config.Load.Addition.{IsLoaded, Added, add_app-Added}

abbrev Serves : App → Type 0
Serves app = not (is_empty app.listen.network) ≡ true

In-insert :
    (name key : Text) (app value : App) (apps : List (Text × App))
    → In (name, app) (insert key value apps)
    → ((name ≡ key) × (app ≡ value)) ⊎ In (name, app) apps
unfolding insert
In-insert name key app value [] (inl e) = inl (ap (λ p. p.0) e, ap (λ p. p.1) e)
In-insert name key app value [] (inr i) = absurd i
In-insert name key app value ((j, w) ∷ rest) i = elim (Bool-cases (text_eq j key)) [
  | inl same ↦
      let at : In (name, app) ((key, value) ∷ rest) = rw (insert, same) at i in
      elim at [ inl e ↦ inl (ap (λ p. p.0) e, ap (λ p. p.1) e) | inr later ↦ inr (inr later) ]
  | inr other ↦
      let at : In (name, app) ((j, w) ∷ insert key value rest) = rw (insert, other) at i in
      elim at [
        | inl e ↦ inr (inl e)
        | inr later ↦ elim (In-insert name key app value rest later) [
          | inl e ↦ inl e
          | inr old ↦ inr (inr old)
        ]
      ]
]

listener_head :
    (socket : Socket) (file : Text) (rest : List (Socket × Text))
    → listener socket ((socket, file) ∷ rest) ≡ some file
unfolding listener
listener_head socket file rest = rw (text_eq_refl socket.network, text_eq_refl socket.address) refl

listener_tail :
    (socket other : Socket) (file : Text) (rest : List (Socket × Text))
    → listener socket rest ≢ none
    → listener socket ((other, file) ∷ rest) ≢ none
unfolding listener
listener_tail socket other file rest h =
    elim (Bool-cases
      (text_eq other.network socket.network && text_eq other.address socket.address)) [
        | inl same ↦ rw same (λ e. cc)
        | inr different ↦ rw different h
      ]

module _ (sources : Sources) where
  -- The apps that were taken: each goes by its own name and is as `validate` wants it, and no two of
  -- them have the same listener.
  pub record IsLoading (l : Loading) : Type 0 where
    pub loaded :
        (name : Text) (app : App) → In (name, app) l.apps → (app.name ≡ name) × IsLoaded sources app
    pub registered :
        (name : Text) (app : App)
        → In (name, app) l.apps
        → Serves app
        → listener app.listen l.sockets ≢ none
    pub distinct :
        (n m : Text) (a b : App)
        → In (n, a) l.apps
        → In (m, b) l.apps
        → Serves a
        → a.listen ≡ b.listen
        → n ≡ m

  module _ (name : Text) (l m : Loading) (inv : IsLoading l) (added : Added sources name l m) where
    open added use {app, file}

    old_or_new :
        (n : Text) (a : App) → In (n, a) m.apps → ((n ≡ name) × (a ≡ app)) ⊎ In (n, a) l.apps
    old_or_new n a i = In-insert n name a app l.apps (subst (λ apps. In (n, a) apps) added.apps i)

    listener_kept :
        (socket : Socket) → listener socket l.sockets ≢ none → listener socket m.sockets ≢ none
    listener_kept socket h = elim (Bool-cases (not (is_empty app.listen.network))) [
      | inl serves ↦
          let grown : m.sockets ≡ (app.listen, file) ∷ l.sockets = rw serves at added.sockets in
          rw grown (listener_tail socket app.listen file l.sockets h)
      | inr silent ↦ let same : m.sockets ≡ l.sockets = rw silent at added.sockets in rw same h
    ]

    new_registered : Serves app → listener app.listen m.sockets ≢ none
    new_registered serves =
        let grown : m.sockets ≡ (app.listen, file) ∷ l.sockets = rw serves at added.sockets in
        rw (grown, listener_head app.listen file l.sockets) (λ e. cc)

    -- An app that was taken before has another listener.
    clash : (n : Text) (a : App) → In (n, a) l.apps → Serves app → app.listen ≡ a.listen → ⊥
    clash n a i serves same =
        inv.registered n a i (subst (λ (x : Socket). not (is_empty x.network) ≡ true) same serves)
          (subst (λ x. listener x l.sockets ≡ none) same (added.fresh serves))

    Added-IsLoading : IsLoading m
    Added-IsLoading = record {
      loaded = λ n a i. elim (old_or_new n a i) [
        | inl (en, ea) ↦
            subst (λ x. (x.name ≡ n) × IsLoaded sources x) (sym ea)
              (added.own_name ∙ sym en, added.loaded)
        | inr old ↦ inv.loaded n a old
      ];
      registered = λ n a i serves. elim (old_or_new n a i) [
        | inl (en, ea) ↦
            subst (λ x. listener x.listen m.sockets ≢ none) (sym ea)
              (new_registered (subst Serves ea serves))
        | inr old ↦ listener_kept a.listen (inv.registered n a old serves)
      ];
      distinct = λ n k a b i j serves same. elim (old_or_new n a i) [
        | inl (en, ea) ↦ elim (old_or_new k b j) [
          | inl (ek, eb) ↦ en ∙ sym ek
          | inr old ↦
              absurd
                (clash k b old (subst Serves ea serves) (subst (λ x. x.listen ≡ b.listen) ea same))
        ]
        | inr older ↦ elim (old_or_new k b j) [
          | inl (ek, eb) ↦
              let meets : a.listen ≡ app.listen = same ∙ ap App.listen eb in
              absurd (
                clash n a older
                  (subst (λ (x : Socket). not (is_empty x.network) ≡ true) meets serves)
                  (sym meets))
          | inr old ↦ inv.distinct n k a b older old serves same
        ]
      ];
    }

  add_named-IsLoading :
      (password : Option Text) (file : Text) (app : App) (previous : Option App) (l m : Loading)
      → IsLoading l
      → add_named sources password file app previous l ≡ ok m
      → IsLoading m
  unfolding add_named
  add_named-IsLoading password file app none l m inv h =
      Added-IsLoading app.name l m inv (add_app-Added sources password file app l m h)
  add_named-IsLoading password file app (some previous) l m inv h =
      elim (Bool-cases (text_eq previous.source file)) [
        | inl again ↦ subst IsLoading (ok_inj (rw again at h)) inv
        | inr other ↦ absurd (err-ne-ok (rw other at h))
      ]

  load_read-IsLoading :
      (password : Option Text) (file : Text) (read : Option App) (l m : Loading)
      → IsLoading l
      → load_read sources password file read l ≡ ok m
      → IsLoading m
  unfolding load_read
  load_read-IsLoading password file none l m inv h = absurd (err-ne-ok h)
  load_read-IsLoading password file (some app) l m inv h =
      let (windows, h1) = refuse_if-passed _ _ _ h in
      add_named-IsLoading password file (named sources file app) _ l m inv h1

  load_files-IsLoading :
      (password : Option Text) (found : List Text) (l m : Loading)
      → IsLoading l
      → load_files sources password found l ≡ ok m
      → IsLoading m
  unfolding load_files
  load_files-IsLoading password [] l m inv h = subst IsLoading (ok_inj h) inv
  load_files-IsLoading password (file ∷ rest) l m inv h =
      let (l', first, h1) =
        >>=-eq-ok (load_read sources password file (sources.read_app file new_app) l) _ h in
      load_files-IsLoading password rest l' m (load_read-IsLoading password file _ l l' inv first)
        h1

  load_found-IsLoading :
      (password : Option Text) (pattern root : Text) (found : Option (List Text)) (l m : Loading)
      → IsLoading l
      → load_found sources password pattern root found l ≡ ok m
      → IsLoading m
  unfolding load_found
  load_found-IsLoading password pattern root none l m inv h = absurd (err-ne-ok h)
  load_found-IsLoading password pattern root (some found) l m inv h =
      load_files-IsLoading password found (record l { roots = l.roots ++ root ∷ [] }) m
        (record { loaded = inv.loaded; registered = inv.registered; distinct = inv.distinct }) h

  pub load_patterns-IsLoading :
      (password : Option Text) (directory : Text) (watched : List Text) (l m : Loading)
      → IsLoading l
      → load_patterns sources password directory watched l ≡ ok m
      → IsLoading m
  unfolding load_patterns
  load_patterns-IsLoading password directory [] l m inv h = subst IsLoading (ok_inj h) inv
  load_patterns-IsLoading password directory (pattern ∷ rest) l m inv h =
      let pattern' = resolve sources.libraries directory pattern in
      let (root, climbed, h1) =
        >>=-eq-ok (wrap invalid_root (watch_root sources.files pattern')) _ h in
      let (l', first, h2) =
        >>=-eq-ok
          (load_found sources password pattern' root
            (expand_glob sources.files sources.match_glob pattern' root) l)
          _ h1 in
      load_patterns-IsLoading password directory rest l' m
        (load_found-IsLoading password pattern' root _ l l' inv first) h2

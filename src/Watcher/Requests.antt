-- ===== src/Watcher/Requests.antt =====
-- No restart that a file event asks for is lost, and the configuration that `Watch` compares with is
-- the one that its receiver has.
use ooth.Prelude.{
  ℕ, ◌≡◌, refl, sym, ◌∙◌, ap, inl, inr, ◌⊎◌, Bool, true, false, Bool-cases, Option, none, some,
  is_some, List, [], ◌∷◌, ◌++◌, In, is_empty, ltb,
}
use mathlib.Core.Bool.{false≢true}
use mathlib.Core.Path.{subst}
use ooth.Prelude.Texts.{Text, text_eq, text_eq_refl}
use ooth.Prelude.Maps.{lookup, insert, lookup-insert}
use ooth.Config.App.{App}
use ooth.Config.Sources.{Loaded}
use ooth.Watcher.{
  Paths, WatchEvent, Watching, Update, WatchInput, happens, settles, affects, record_event, chosen,
  latest, send_update, overflow_event, count_lost, end_round, take_input, watch,
}

abbrev pub IsPending : Text → List (Text × App) → Type 0
IsPending name restarts = is_some (lookup name restarts) ≡ true

-- One of the updates asks for the restart.
abbrev pub IsDelivered : Text → List Update → Type 0
IsDelivered name [] = ⊥
IsDelivered name (update ∷ rest) = IsPending name update.restarts ⊎ IsDelivered name rest

IsDelivered-left :
    (name : Text) (l m : List Update) → IsDelivered name l → IsDelivered name (l ++ m)
IsDelivered-left name [] m d = absurd d
IsDelivered-left name (u ∷ l) m (inl p) = inl p
IsDelivered-left name (u ∷ l) m (inr d) = inr (IsDelivered-left name l m d)

IsDelivered-right :
    (name : Text) (l m : List Update) → IsDelivered name m → IsDelivered name (l ++ m)
IsDelivered-right name [] m d = d
IsDelivered-right name (u ∷ l) m d = inr (IsDelivered-right name l m d)

insert-IsPending :
    (name key : Text) (app : App) (l : List (Text × App))
    → IsPending name l
    → IsPending name (insert key app l)
insert-IsPending name key app l p = elim (Bool-cases (text_eq key name)) [
  | inl same ↦ rw (lookup-insert key name app l, same) refl
  | inr other ↦ rw (lookup-insert key name app l, other) p
]

insert_self-IsPending :
    (name : Text) (app : App) (l : List (Text × App)) → IsPending name (insert name app l)
insert_self-IsPending name app l = rw (lookup-insert name name app l, text_eq_refl name) refl

IsPending-filled : (name : Text) (l : List (Text × App)) → IsPending name l → is_empty l ≡ false
unfolding lookup
IsPending-filled name [] p = absurd (false≢true p)
IsPending-filled name (x ∷ l) p = refl

module _ (paths : Paths) where
  record_event-keeps :
      (event : WatchEvent) (apps l : List (Text × App)) (name : Text)
      → IsPending name l
      → IsPending name (record_event paths event apps l)
  unfolding record_event
  record_event-keeps event [] l name p = p
  record_event-keeps event ((key, app) ∷ rest) l name p =
      elim (Bool-cases (affects paths event app)) [
        | inl hit ↦ rw hit (
            record_event-keeps event rest (insert key app l) name
              (insert-IsPending name key app l p))
        | inr miss ↦ rw miss (record_event-keeps event rest l name p)
      ]

  record_event-adds :
      (event : WatchEvent) (apps l : List (Text × App)) (name : Text) (app : App)
      → In (name, app) apps
      → affects paths event app ≡ true
      → IsPending name (record_event paths event apps l)
  unfolding record_event
  record_event-adds event [] l name app i h = absurd i
  record_event-adds event ((key, other) ∷ rest) l name app (inr i) h =
      record_event-adds event rest _ name app i h
  record_event-adds event ((key, other) ∷ rest) l name app (inl e) h =
      let same_name : name ≡ key = ap (λ p. p.0) e in
      let hit : affects paths event other ≡ true =
        subst (λ (a : App). affects paths event a ≡ true) (ap (λ p. p.1) e) h in
      rw hit (
        record_event-keeps event rest (insert key other l) name (
          subst (λ k. IsPending name (insert k other l)) same_name
            (insert_self-IsPending name other l)))

  count_lost-keeps :
      (count : ℕ) (st : Watching) (name : Text)
      → IsPending name st.restarts
      → IsPending name (count_lost paths count st).restarts
  unfolding count_lost
  count_lost-keeps count st name p = elim (Bool-cases (ltb st.lost count)) [
    | inl more ↦ rw more (record_event-keeps overflow_event st.initial.apps st.restarts name p)
    | inr none_lost ↦ rw none_lost p
  ]

  send_update-delivers :
      (st : Watching) (snapshot : Option Loaded) (name : Text)
      → IsPending name st.restarts
      → IsDelivered name (send_update st snapshot).1
  unfolding send_update
  send_update-delivers st (some next) name p = inl p
  send_update-delivers st none name p = elim (Bool-cases (is_empty st.restarts)) [
    | inl nothing ↦ absurd (false≢true (sym (IsPending-filled name st.restarts p) ∙ nothing))
    | inr something ↦ rw something (inl p)
  ]

  end_round-delivers :
      (count : ℕ) (loaded : Option Loaded) (starts : Bool) (st : Watching) (name : Text)
      → IsPending name st.restarts
      → IsDelivered name (end_round paths count loaded starts st).1
  unfolding end_round
  end_round-delivers count loaded starts st name p =
      let counted = count_lost paths count st in
      let pending = count_lost-keeps count st name p in
      elim (Bool-cases (chosen counted.initial loaded starts).1) [
        | inl replaced ↦
            rw replaced (send_update-delivers (record counted { lost = 0 }) _ name pending)
        | inr kept ↦ rw kept (send_update-delivers counted _ name pending)
      ]

  watch-delivers :
      (inputs : List WatchInput) (st : Watching) (count : ℕ) (loaded : Option Loaded)
      (starts : Bool) (name : Text)
      → IsPending name st.restarts
      → IsDelivered name (watch paths st (inputs ++ settles count loaded starts ∷ [])).1
  unfolding watch take_input
  watch-delivers [] st count loaded starts name p =
      IsDelivered-left name _ [] (end_round-delivers count loaded starts st name p)
  watch-delivers (happens event ∷ rest) st count loaded starts name p =
      watch-delivers rest
        (record st { restarts = record_event paths event st.initial.apps st.restarts }) count loaded
        starts name (record_event-keeps event st.initial.apps st.restarts name p)
  watch-delivers (settles count' loaded' starts' ∷ rest) st count loaded starts name p =
      IsDelivered-left name _ _ (end_round-delivers count' loaded' starts' st name p)

-- An event that affects an app of the configuration is not lost: whatever other events and rounds follow,
-- by the end of the next round an update has asked for the restart of the app.
pub watch-IsDelivered :
    (paths : Paths) (st : Watching) (event : WatchEvent) (inputs : List WatchInput) (count : ℕ)
    (loaded : Option Loaded) (starts : Bool) (name : Text) (app : App)
    → In (name, app) st.initial.apps
    → affects paths event app ≡ true
    → IsDelivered name
        (watch paths st (happens event ∷ (inputs ++ settles count loaded starts ∷ []))).1
unfolding watch take_input
watch-IsDelivered paths st event inputs count loaded starts name app i h =
    watch-delivers paths inputs
      (record st { restarts = record_event paths event st.initial.apps st.restarts }) count loaded
      starts name (record_event-adds paths event st.initial.apps st.restarts name app i h)

-- What a receiver of updates has: the last snapshot that was sent.
abbrev pub received : Loaded → List Update → Loaded
received initial [] = initial
received initial (update ∷ rest) = received (latest initial update.snapshot) rest

received-append :
    (initial : Loaded) (l m : List Update)
    → received initial (l ++ m) ≡ received (received initial l) m
received-append initial [] m = refl
received-append initial (u ∷ l) m = received-append (latest initial u.snapshot) l m

send_update-received :
    (st : Watching) (snapshot : Option Loaded)
    → (send_update st snapshot).0.initial ≡ received st.initial (send_update st snapshot).1
unfolding send_update latest
send_update-received st (some next) = refl
send_update-received st none = elim (Bool-cases (is_empty st.restarts)) [
  | inl nothing ↦ rw nothing refl
  | inr something ↦ rw something refl
]

module _ (paths : Paths) where
  count_lost-initial :
      (count : ℕ) (st : Watching) → (count_lost paths count st).initial ≡ st.initial
  unfolding count_lost
  count_lost-initial count st = elim (Bool-cases (ltb st.lost count)) [
    | inl more ↦ rw more refl
    | inr none_lost ↦ rw none_lost refl
  ]

  take_input-received :
      (st : Watching) (input : WatchInput)
      → (take_input paths st input).0.initial ≡ received st.initial (take_input paths st input).1
  unfolding take_input end_round
  take_input-received st (happens event) = refl
  take_input-received st (settles count loaded starts) =
      let counted = count_lost paths count st in
      let same = count_lost-initial count st in
      elim (Bool-cases (chosen counted.initial loaded starts).1) [
        | inl replaced ↦ rw replaced (
            send_update-received (record counted { lost = 0 })
              (chosen counted.initial loaded starts).0
            ∙ ap
                (λ i.
                  received i
                    (send_update (record counted { lost = 0 })
                      (chosen counted.initial loaded starts).0).1)
                same)
        | inr kept ↦ rw kept (
            send_update-received counted (chosen counted.initial loaded starts).0
            ∙ ap (λ i. received i (send_update counted (chosen counted.initial loaded starts).0).1)
                same)
      ]

-- The configuration that `Watch` compares the files with is always the one that its receiver has: the last
-- one that was sent or, before that, the one that it started with.
pub watch-received :
    (paths : Paths) (inputs : List WatchInput) (st : Watching)
    → (watch paths st inputs).0.initial ≡ received st.initial (watch paths st inputs).1
unfolding watch
watch-received paths [] st = refl
watch-received paths (input ∷ rest) st =
    let stepped = take_input paths st input in
    watch-received paths rest stepped.0
    ∙ ap (λ i. received i (watch paths stepped.0 rest).1) (take_input-received paths st input)
    ∙ sym (received-append st.initial stepped.1 (watch paths stepped.0 rest).1)

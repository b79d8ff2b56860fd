-- ===== src/Config/Dependencies/Entries.antt =====
-- The conditions that `App.dependencies` gathers from the two forms in which an app states them.
use ooth.Prelude.{
  ◌≡◌, ◌↔◌, ◌⊎◌, inl, inr, refl, sym, ◌∙◌, true, false, Bool-cases, some, some_inj, List, [], ◌∷◌,
  In,
}
use mathlib.Core.Bool.{false≢true}
use mathlib.Core.Path.{subst}
use ooth.Prelude.Texts.{Text, codes, text_eq, text_eq_iff}
use ooth.Prelude.Maps.{lookup, insert, lookup-insert}
use ooth.Config.App.{App, required_entries, write_entries, dependencies}

-- What a map holds after a write.
insert_same :
    (key name value : Text) (m : List (Text × Text))
    → key ≡ name
    → lookup name (insert key value m) ≡ some value
insert_same key name value m e =
    let same : text_eq key name ≡ true = (text_eq_iff key name).1 e in
    rw (lookup-insert key name value m, same) refl

insert_other :
    (key name value : Text) (m : List (Text × Text))
    → text_eq key name ≡ false
    → lookup name (insert key value m) ≡ lookup name m
insert_other key name value m other = rw (lookup-insert key name value m, other) refl

required_ready :
    (names : List Text) (name : Text)
    → In name names
    → lookup name (required_entries names) ≡ some (codes "ready")
unfolding required_entries
required_ready [] name i = absurd i
required_ready (first ∷ names) name i = elim (Bool-cases (text_eq first name)) [
  | inl same ↦
      insert_same first name (codes "ready") (required_entries names)
        ((text_eq_iff first name).0 same)
  | inr other ↦ elim i [
    | inl e ↦ absurd (false≢true (sym other ∙ (text_eq_iff first name).1 (sym e)))
    | inr j ↦
        insert_other first name (codes "ready") (required_entries names) other
        ∙ required_ready names name j
  ]
]

required-In :
    (names : List Text) (name condition : Text)
    → lookup name (required_entries names) ≡ some condition
    → In name names × (condition ≡ codes "ready")
unfolding required_entries lookup
required-In [] name condition h = cc
required-In (first ∷ names) name condition h = elim (Bool-cases (text_eq first name)) [
  | inl same ↦
      let e = (text_eq_iff first name).0 same in
      (
        inl (sym e),
        some_inj (sym h ∙ insert_same first name (codes "ready") (required_entries names) e),
      )
  | inr other ↦
      let (i, e) =
        required-In names name condition
          (sym (insert_other first name (codes "ready") (required_entries names) other) ∙ h) in
      (inr i, e)
]

-- A map of Go has one value for a key.
abbrev pub HasOne : List (Text × Text) → Text → Text → Type 0
HasOne entries name condition = (other : Text) → In (name, other) entries → other ≡ condition

same_entry : (key name value : Text) → key ≡ name → ◌≡◌ {A = Text × Text} (name, value) (key, value)
same_entry key name value e = rw e refl

same_key :
    {name condition key value : Text}
    → ◌≡◌ {A = Text × Text} (name, condition) (key, value)
    → name ≡ key
same_key e = cc

-- Whether a name is a key of a map.
key_cases :
    (entries : List (Text × Text)) (name : Text)
    → ((condition : Text) × In (name, condition) entries)
      ⊎ ((condition : Text) → ¬ In (name, condition) entries)
key_cases [] name = inr (λ c i. i)
key_cases ((key, value) ∷ rest) name = elim (Bool-cases (text_eq key name)) [
  | inl same ↦ inl (value, inl (same_entry key name value ((text_eq_iff key name).0 same)))
  | inr other ↦ elim (key_cases rest name) [
    | inl (condition, i) ↦ inl (condition, inr i)
    | inr absent ↦ inr (λ c i. elim i [
      | inl e ↦ false≢true (sym other ∙ (text_eq_iff key name).1 (sym (same_key e)))
      | inr j ↦ absent c j
    ])
  ]
]

write_entries-absent :
    (entries m : List (Text × Text)) (name : Text)
    → ((condition : Text) → ¬ In (name, condition) entries)
    → lookup name (write_entries entries m) ≡ lookup name m
unfolding write_entries
write_entries-absent [] m name absent = refl
write_entries-absent ((key, value) ∷ rest) m name absent = elim (Bool-cases (text_eq key name)) [
  | inl same ↦
      let e = (text_eq_iff key name).0 same in
      absurd (absent value (inl (same_entry key name value e)))
  | inr other ↦
      write_entries-absent rest (insert key value m) name (λ c i. absent c (inr i))
      ∙ insert_other key name value m other
]

write_entries-present :
    (entries m : List (Text × Text)) (name condition : Text)
    → HasOne entries name condition
    → (lookup name m ≡ some condition) ⊎ In (name, condition) entries
    → lookup name (write_entries entries m) ≡ some condition
unfolding write_entries
write_entries-present [] m name condition one (inl h) = h
write_entries-present [] m name condition one (inr i) = absurd i
write_entries-present ((key, value) ∷ rest) m name condition one given =
    write_entries-present rest (insert key value m) name condition (λ c i. one c (inr i))
      (elim (Bool-cases (text_eq key name)) [
        | inl same ↦
            let e = (text_eq_iff key name).0 same in
            let v : value ≡ condition = one value (inl (same_entry key name value e)) in
            inl (
              subst (λ c. lookup name (insert key value m) ≡ some c) v
                (insert_same key name value m e))
        | inr other ↦ elim given [
          | inl h ↦ inl (insert_other key name value m other ∙ h)
          | inr i ↦ elim i [
            | inl e ↦ absurd (false≢true (sym other ∙ (text_eq_iff key name).1 (sym (same_key e))))
            | inr j ↦ inr j
          ]
        ]
      ])

-- An app depends on another in the condition that its map of dependencies gives it or, where the map
-- gives it none, in the condition "ready" if the app requires it; and on no others. The map has one
-- condition for a name.
pub dependencies_iff :
    (app : App) (name condition : Text)
    → ((one : Text) → In (name, one) app.conditions → HasOne app.conditions name one)
    → (lookup name (dependencies app) ≡ some condition) ↔ (
        In (name, condition) app.conditions
        ⊎ (((other : Text) → ¬ In (name, other) app.conditions)
            × (In name app.requires × (condition ≡ codes "ready"))))
unfolding dependencies
dependencies_iff app name condition single = (
  λ h. elim (key_cases app.conditions name) [
    | inl (one, i) ↦
        let written =
          write_entries-present app.conditions (required_entries app.requires) name one
            (single one i) (inr i) in
        let same : one ≡ condition = some_inj (sym written ∙ h) in
        inl (subst (λ c. In (name, c) app.conditions) same i)
    | inr absent ↦ inr (
      absent,
      required-In app.requires name condition (
          sym (write_entries-absent app.conditions (required_entries app.requires) name absent)
          ∙ h),
    )
  ],
  λ given. elim given [
    | inl i ↦
        write_entries-present app.conditions (required_entries app.requires) name condition
          (single condition i) (inr i)
    | inr (absent, (i, e)) ↦
        write_entries-absent app.conditions (required_entries app.requires) name absent
        ∙ subst (λ c. lookup name (required_entries app.requires) ≡ some c) (sym e)
            (required_ready app.requires name i)
  ],
)

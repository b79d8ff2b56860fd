-- ===== src/Execution/Output.antt =====
-- What `actionOutput` holds after a sequence of writes.
use ooth.Prelude.{
  ℕ, zero, suc, ◌-◌, ◌≤◌, ◌≡◌, refl, sym, min, List, [], ◌∷◌, ◌++◌, take, length, length-append,
  ltb, arith,
}
use ooth.Prelude.Texts.{Text}
use ooth.Execution.{ActionOutput, no_output, write, write_all}
use mathlib.Core.List.{append_assoc, append-nil}

take-append : (n : ℕ) (s t : Text) → take n (s ++ t) ≡ take n s ++ take (n - length s) t
take-append zero s t = let none_left : 0 - length s ≡ 0 = omega arith in rw none_left refl
take-append (suc n) [] t = let all_left : suc n - 0 ≡ suc n = omega arith in rw all_left refl
take-append (suc n) (c ∷ s) t =
    let fewer : suc n - suc (length s) ≡ n - length s = omega arith in
    rw (fewer, take-append n s t) refl

length-take : (n : ℕ) (s : Text) → length (take n s) ≡ min n (length s)
length-take zero s = omega arith
length-take (suc n) [] = omega arith
length-take (suc n) (c ∷ s) = omega (arith, length-take n s)

take-min : (n : ℕ) (s : Text) → take (min (length s) n) s ≡ take n s
take-min zero s = let nothing : min (length s) 0 ≡ 0 = omega arith in rw nothing refl
take-min (suc n) [] = let nothing : min 0 (suc n) ≡ 0 = omega arith in rw nothing refl
take-min (suc n) (c ∷ s) =
    let fewer : min (suc (length s)) (suc n) ≡ suc (min (length s) n) = omega arith in
    rw (fewer, take-min n s) refl

-- The concatenation of the writes.
abbrev pub join : List Text → Text
join [] = []
join (chunk ∷ rest) = chunk ++ join rest

-- The output after the bytes s were written.
abbrev Holds : ℕ → Text → ActionOutput → Type 0
Holds limit s output = (output.written ≡ take limit s) × (output.overflow ≡ ltb limit (length s))

write-Holds :
    (limit : ℕ) (s : Text) (output : ActionOutput) (chunk : Text)
    → Holds limit s output
    → Holds limit (s ++ chunk) (write limit output chunk)
unfolding write
write-Holds limit s output chunk h =
    let room : limit - length output.written ≡ limit - length s =
      rw h.0 (omega (arith, length-take limit s)) in
    (
      rw (room, h.0, take-min (limit - length s) chunk, take-append limit s chunk) refl,
      rw (room, h.1, length-append s chunk) (ground arith),
    )

write_all-Holds :
    (limit : ℕ) (chunks : List Text) (s : Text) (output : ActionOutput)
    → Holds limit s output
    → Holds limit (s ++ join chunks) (write_all limit output chunks)
unfolding write_all
write_all-Holds limit [] s output h = rw (append-nil s) h
write_all-Holds limit (chunk ∷ rest) s output h = rw (← (append_assoc s chunk (join rest))) (
    write_all-Holds limit rest (s ++ chunk) (write limit output chunk)
      (write-Holds limit s output chunk h))

take-nil : (n : ℕ) → take {A = ℕ} n [] ≡ []
take-nil zero = refl
take-nil (suc n) = refl

pub take-all : (n : ℕ) (s : Text) → length s ≤ n → take n s ≡ s
take-all zero [] h = refl
take-all zero (c ∷ s) h = absurd (omega arith)
take-all (suc n) [] h = refl
take-all (suc n) (c ∷ s) h = rw (take-all n s (omega arith)) refl

-- However a program's output is cut into writes, what is kept of it is as much of its beginning as the
-- limit allows, and it overflows exactly if it is longer than that.
pub write_all-join :
    (limit : ℕ) (chunks : List Text)
    → ((write_all limit no_output chunks).written ≡ take limit (join chunks))
      × ((write_all limit no_output chunks).overflow ≡ ltb limit (length (join chunks)))
write_all-join limit chunks =
    write_all-Holds limit chunks [] no_output (sym (take-nil limit), ground arith)

-- ===== src/Core/Dumped.antt =====
-- What canna_dump leaves of the stream that it prints to.
use canna.Prelude.{
  ℕ, ◌≡◌, refl, ap, ◌∙◌, inl, inr, Bool, true, false, not, List, [], ◌∷◌, ◌++◌, arith, Bool-cases,
  length, ◌||◌, replicate,
}
use canna.Core.{is_text, print_number, dump_part, dump_parts, dump}

-- One of the parts holds a byte that is no text.
abbrev pub any_binary : List (List ℕ) → Bool
any_binary [] = false
any_binary (part ∷ parts) = not (is_text part) || any_binary parts

-- The line of a text.
abbrev pub line : Bool → List ℕ → List ℕ
line hex part = (b'[' ∷ (print_number hex 3 (length part) ++ b']' ∷ [])) ++ (part ++ 10 ∷ [])

-- The lines of parts that are texts, in the base of the stream.
abbrev pub text_lines : Bool → List (List ℕ) → List ℕ
text_lines hex [] = []
text_lines hex (part ∷ parts) = line hex part ++ text_lines hex parts

dump_parts-base :
    (hex : Bool) (parts : List (List ℕ)) → (dump_parts hex parts).0 ≡ (hex || any_binary parts)
unfolding dump_parts dump_part
dump_parts-base hex [] = ground arith
dump_parts-base hex (part ∷ parts) = elim (Bool-cases (is_text part)) [
  | inl e ↦ rw e (dump_parts-base hex parts)
  | inr e ↦ rw e (dump_parts-base true parts ∙ ground arith)
]

dump_parts-text :
    (hex : Bool) (parts : List (List ℕ))
    → any_binary parts ≡ false
    → (dump_parts hex parts).1 ≡ text_lines hex parts
unfolding dump_parts dump_part
dump_parts-text hex [] h = refl
dump_parts-text hex (part ∷ parts) h = elim (Bool-cases (is_text part)) [
  | inl e ↦ rw (e, dump_part) (ap (λ l. line hex part ++ l) (dump_parts-text hex parts (rw e at h)))
  | inr e ↦ absurd (let f = rw e at h in cc)
]

-- Behind the dump of a message the stream is hexadecimal just if it was before or a part was
-- binary, for good; a message of texts alone is printed line by line, in the base that the stream
-- was left in, so with hexadecimal sizes once any binary part has been dumped.
pub dump_lem :
    (hex : Bool) (parts : List (List ℕ))
    → ((dump hex parts).0 ≡ (hex || any_binary parts))
      × (any_binary parts ≡ false
          → (dump hex parts).1 ≡ replicate 50 b'-' ++ 10 ∷ [] ++ text_lines hex parts)
unfolding dump
dump_lem hex parts = (
  dump_parts-base hex parts,
  λ h. ap (λ l. replicate 50 b'-' ++ 10 ∷ [] ++ l) (dump_parts-text hex parts h),
)

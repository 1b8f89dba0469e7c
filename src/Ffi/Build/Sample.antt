-- ===== src/Ffi/Build/Sample.antt =====
-- A small heap on which the generated functions of a program are concrete functions.
use certicoq.Prelude.{
  ℕ, ◌+◌, ◌≤◌, ◌≡◌, refl, arith, ap, ◌∙◌, sym, inl, inr, ◌⊎◌, Option, none, some, Bool-cases, false,
  if◌then◌else◌, ◌==◌, List, [], ◌∷◌, length,
}
use mathlib.Core.Path.{subst}
use certicoq.Ffi.Strings.{bit, CharAt, StringAt}
use certicoq.Ffi.Build.{Maker}
use certicoq.Ffi.Build.RoundTrip.{MakerOk}

-- A block of the heap: a character of Coq, or a string of a first character and a rest.
pub data Node : Type 0 where
  ascii : (ℕ → ℕ) → Node
  string : ℕ → ℕ → Node

-- 0 is `true`, 1 is `false`, 2 is the empty string, and the blocks count from 3 in the order of their
-- allocation, of which the last is the first of the list.
unfoldable pub block : List Node → ℕ → Option Node
block [] v = none
block (x ∷ w) v = if v == 3 + length w then some x else block w v

abbrev tag_of : Option Node → ℕ
tag_of none = 2
tag_of (some (ascii f)) = 2
tag_of (some (string c t)) = 1

abbrev field_of : Option Node → ℕ → ℕ
field_of none i = 9
field_of (some (ascii f)) i = f i
field_of (some (string c t)) i = if i == 0 then c else if i == 1 then t else 9

abbrev bool_tag : ℕ → ℕ
bool_tag v = if v == 0 then 0 else if v == 1 then 1 else 2

abbrev string_tag : ℕ → Option Node → ℕ
string_tag v o = if v == 2 then 0 else tag_of o

abbrev pub maker : Maker (List Node)
maker = record {
  glue = λ w. record {
    field = λ v i. field_of (block w v) i;
    bool_tag = λ v. bool_tag v;
    string_tag = λ v. string_tag v (block w v);
    rgx_tag = λ v. 0;
  };
  true_value = 0;
  false_value = 1;
  empty_value = 2;
  make_ascii = λ f w. (3 + length w, ascii f ∷ w);
  make_string = λ c t w. (3 + length w, string c t ∷ w);
}

newest : (x : Node) (w : List Node) → block (x ∷ w) (3 + length w) ≡ some x
unfolding block
newest x w = ground arith

unborn : (w : List Node) (v : ℕ) → 3 + length w ≤ v → block w v ≡ none
unfolding block
unborn [] v h = refl
unborn (x ∷ w) v h =
    let other : (v == 3 + length w) ≡ false = ground arith in rw other (unborn w v (omega arith))

-- A block that is there stays as it is.
kept : (x : Node) (w : List Node) (v : ℕ) → (block w v ≡ none) ⊎ (block (x ∷ w) v ≡ block w v)
unfolding block
kept x w v = elim (Bool-cases (v == 3 + length w)) [
  | inl e ↦ inl (unborn w v (ground arith))
  | inr e ↦ inr (rw (block, e) refl)
]

char_kept :
    (x : Node) (w : List Node) (a b : ℕ)
    → CharAt (maker.glue w) a b
    → CharAt (maker.glue (x ∷ w)) a b
char_kept x w a b (small, bits) = elim (kept x w a) [
  | inl e ↦ absurd (not_a_bit (ap (λ o. bool_tag (field_of o 0)) (sym e) ∙ bits 0 (omega arith)))
  | inr e ↦ (small, λ i lt. ap (λ o. bool_tag (field_of o i)) e ∙ bits i lt)
]
  where
    not_a_bit : ◌≡◌ {A = ℕ} 2 (if bit b 0 == 0 then 1 else 0) → ⊥
    not_a_bit e = ground arith

string_kept :
    (x : Node) (w : List Node) (v : ℕ) (bs : List ℕ)
    → StringAt (maker.glue w) v bs
    → StringAt (maker.glue (x ∷ w)) v bs
string_kept x w v [] at = elim (kept x w v) [
  | inl e ↦
      let old : ◌≡◌ {A = ℕ} (if v == 2 then 0 else 2) 0 = ap (λ o. string_tag v o) (sym e) ∙ at in
      ground arith
  | inr e ↦ ap (string_tag v) e ∙ at
]
string_kept x w v (b ∷ bs) (tag, char, at) = elim (kept x w v) [
  | inl e ↦ absurd (no_block v (ap (string_tag v) (sym e) ∙ tag))
  | inr e ↦ (
    ap (string_tag v) e ∙ tag,
    subst (λ a. CharAt (maker.glue (x ∷ w)) a b) (ap (λ o. field_of o 0) (sym e))
        (char_kept x w _ b char),
    subst (λ r. StringAt (maker.glue (x ∷ w)) r bs) (ap (λ o. field_of o 1) (sym e))
        (string_kept x w ((maker.glue w).field v 1) bs at),
  )
]
  where
    no_block : (v : ℕ) → ◌≡◌ {A = ℕ} (if v == 2 then 0 else 2) 1 → ⊥
    no_block v e = ground arith

pub maker-MakerOk : MakerOk maker
maker-MakerOk = record {
  true_tag = λ w. refl;
  false_tag = λ w. refl;
  empty_tag = λ w. refl;
  ascii_fields = λ f w i lt. ap (λ o. field_of o i) (newest (ascii f) w);
  ascii_keeps = λ f w. string_kept (ascii f) w;
  string_tag = λ c t w.
      let old : ((3 + length w) == 2) ≡ false = ground arith in
      rw old (ap tag_of (newest (string c t) w));
  string_head = λ c t w. ap (λ o. field_of o 0) (newest (string c t) w);
  string_tail = λ c t w. ap (λ o. field_of o 1) (newest (string c t) w);
  string_keeps_char = λ c t w. char_kept (string c t) w;
  string_keeps = λ c t w. string_kept (string c t) w;
}

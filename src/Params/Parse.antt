-- ===== src/Params/Parse.antt =====
-- ParseStatement: the places that it finds are those of `?`, in their order.
use tcl_dbi.Base.{
  ℕ, suc, ◌≤◌, ◌≡◌, sym, subst, true, some, List, [], ◌∷◌, ◌++◌, append_assoc, arith, length,
  length-append, get_elem?, get_elem?-append, Bool-cases, inl, inr,
}
use tcl_dbi.Memory.{Bytes}
use tcl_dbi.Params.{
  Mode, text, slash, comment, line_comment, literal, escaped, next, marks, scan, peek,
  parse_statement,
}

-- From `prv` on, each place holds a `?`, and the places ascend.
abbrev pub Places : Bytes → ℕ → List ℕ → Type 0
Places src prv [] = prv ≤ length src
Places src prv (p ∷ ps) = (prv ≤ p) × (get_elem? src p ≡ some b'?') × Places src (suc p) ps

Places-le : (src : Bytes) (a b : ℕ) (ps : List ℕ) → a ≤ b → Places src b ps → Places src a ps
Places-le src a b [] h k = omega arith
Places-le src a b (p ∷ ps) h (k, e, r) = (omega arith, e, r)

marks-mark : (m : Mode) (c : ℕ) → marks m c ≡ true → c ≡ b'?'
unfolding marks
marks-mark text c e = ground arith
marks-mark slash c e = cc
marks-mark comment c e = cc
marks-mark line_comment c e = cc
marks-mark (literal q) c e = cc
marks-mark (escaped q) c e = cc

-- The place behind one more byte.
scan-step :
    (m : Mode) (done : Bytes) (c : ℕ) (cs : Bytes)
    → Places
        ((done ++ c ∷ []) ++ cs)
        (length (done ++ c ∷ []))
        (scan m (length (done ++ c ∷ [])) cs)
    → Places (done ++ c ∷ cs) (suc (length done)) (scan m (suc (length done)) cs)
scan-step m done c cs h =
    let e : length (done ++ c ∷ []) ≡ suc (length done) =
      omega (arith, length-append done (c ∷ [])) in
    subst (λ l. Places l (suc (length done)) (scan m (suc (length done)) cs))
      (append_assoc done (c ∷ []) cs)
      (subst (λ n. Places ((done ++ c ∷ []) ++ cs) n (scan m n cs)) e h)

scan-Places :
    (m : Mode) (done cs : Bytes) → Places (done ++ cs) (length done) (scan m (length done) cs)
unfolding scan
scan-Places m done [] = omega (arith, length-append done [])
scan-Places m done (c ∷ cs) =
    let m' = next m c (peek cs) in
    let rest = scan-step m' done c cs (scan-Places m' (done ++ c ∷ []) cs) in
    elim (Bool-cases (marks m c)) [
      | inl e ↦ rw e (
        omega arith,
        subst (λ x. get_elem? (done ++ x ∷ cs) (length done) ≡ some b'?') (sym (marks-mark m c e))
            (get_elem?-append done b'?' cs),
        rest,
      )
      | inr e ↦ rw e (Places-le _ (length done) (suc (length done)) _ (omega arith) rest)
    ]

-- The places that ParseStatement finds lie in the text, ascend, and each of them holds a `?`.
pub parse_statement-Places : (src : Bytes) → Places src 0 (parse_statement src)
unfolding parse_statement
parse_statement-Places src = scan-Places text [] src

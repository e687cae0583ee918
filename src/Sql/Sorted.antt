-- ===== src/Sql/Sorted.antt =====
-- Rows in the order of a key.
use mathlib.Core.List.{Perm}
use mathlib.Core.List.Perm
use mathlib.Core.List.{Mem, not-mem-nil, mem-cons_self, mem-cons_of_mem, eq-or-mem_of_mem-cons}
use mathlib.Core.Logic.Or
use mathlib.Core.HLevel.{¬_prop}
use native.Mathlib.Bridge.{le_prop}
use mathlib.Core.Path.{subst}
use email_service_with_aws_s.Base.{ℕ, ◌≤◌, ◌≡◌, ◌≢◌, ◌∙◌, ap, refl, sym, List, [], ◌∷◌, arith, All}
use email_service_with_aws_s.Sql.{Falls}

module _ {Row : Type 0} (key : Row → ℕ) where
  -- Rows with the same key are the same.
  abbrev pub Tells : List Row → Type 0
  Tells l = (r q : Row) → Mem r l → Mem q l → key r ≡ key q → r ≡ q

  All-Mem : (n : ℕ) (l : List Row) (r : Row) → All (λ q. key q ≤ n) l → Mem r l → key r ≤ n
  All-Mem n [] r a m = absurd (not-mem-nil m)
  All-Mem n (x ∷ l) r (b, a) m =
      Or.elim le_prop (eq-or-mem_of_mem-cons m) (λ e. subst (λ q. key q ≤ n) (sym e) b)
        (λ m'. All-Mem n l r a m')

  first-le : (x : Row) (l : List Row) (r : Row) → Falls key (x ∷ l) → Mem r (x ∷ l) → key r ≤ key x
  first-le x l r (a, f) m = All-Mem (key x) (x ∷ l) r (omega arith, a) m

  -- If the keys tell the rows apart, there is one order.
  pub Falls-unique : (l k : List Row) → Tells l → Perm l k → Falls key l → Falls key k → l ≡ k
  Falls-unique [] [] t p f g = refl
  Falls-unique [] (y ∷ k) t p f g = absurd (not-mem-nil ((Perm.mem_iff p).1 mem-cons_self))
  Falls-unique (x ∷ l) [] t p f g = absurd (not-mem-nil ((Perm.mem_iff p).0 mem-cons_self))
  Falls-unique (x ∷ l) (y ∷ k) t p f g =
      let my : Mem y (x ∷ l) = (Perm.mem_iff p).1 mem-cons_self in
      let mx : Mem x (y ∷ k) = (Perm.mem_iff p).0 mem-cons_self in
      let below : key x ≤ key y = first-le y k x g mx in
      let above : key y ≤ key x = first-le x l y f my in
      let same : x ≡ y = t x y mem-cons_self my (omega arith) in
      let p' : Perm (x ∷ l) (x ∷ k) = subst (λ q. Perm (x ∷ l) (q ∷ k)) (sym same) p in
      let rest : l ≡ k =
        Falls-unique l k (λ r q mr mq. t r q (mem-cons_of_mem x mr) (mem-cons_of_mem x mq))
          (Perm.cons_inv p') f.1 g.1 in
      rw (same, rest) refl

  -- No two entries of the list have the same key.
  abbrev pub Differs : List Row → Type 0
  Differs [] = Unit {0}
  Differs (r ∷ l) = All (λ q. key q ≢ key r) l × Differs l

  not_there : (n : ℕ) (l : List Row) (q : Row) → All (λ x. key x ≢ n) l → Mem q l → key q ≢ n
  not_there n [] q a m = absurd (not-mem-nil m)
  not_there n (x ∷ l) q (b, a) m =
      Or.elim ¬_prop (eq-or-mem_of_mem-cons m) (λ e h. b (ap key (sym e) ∙ h))
        (λ m'. not_there n l q a m')

  pub Differs-Tells : IsSet Row → (l : List Row) → Differs l → Tells l
  Differs-Tells set [] d r q mr mq e = absurd (not-mem-nil mr)
  Differs-Tells set (x ∷ l) (a, d) r q mr mq e =
      Or.elim (set r q) (eq-or-mem_of_mem-cons mr)
        (λ rx.
          Or.elim (set r q) (eq-or-mem_of_mem-cons mq) (λ qx. rx ∙ sym qx)
            (λ mq'. absurd (not_there (key x) l q a mq' (sym e ∙ ap key rx))))
        (λ mr'.
          Or.elim (set r q) (eq-or-mem_of_mem-cons mq)
            (λ qx. absurd (not_there (key x) l r a mr' (e ∙ ap key qx)))
            (λ mq'. Differs-Tells set l d r q mr' mq' e))

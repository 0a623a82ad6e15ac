-- ===== src/Prelude/Reader.antt =====
-- Parsers of a byte prefix: what reads of a `bytes.Reader` in sequence have in common.
use laguna.Prelude.{ℕ, ◌+◌, ◌≤◌, ◌≡◌, ◌⊎◌, inl, inr, refl, sym, ap, ◌∙◌, arith}
use laguna.Prelude.{[], ◌∷◌, ◌++◌, append_assoc, length, length-append, ltb}
use laguna.Prelude.{take, drop, take-append_le, drop-append_le, take-append-drop, length-take}
use laguna.Prelude.{Bytes, Result, ok, err, fault, eof, ◌>>=◌, >>=-eq-ok}
use laguna.Prelude.{Bool-cases, ltb→le}
use mathlib.Core.Path.{subst, fun_ext}
use laguna.Prelude.Binary.{read_full, read_be, read_byte, be_value}

abbrev pub Reader {ℓ} : Type ℓ → Type ℓ
Reader A = Bytes → Result (A × Bytes)

-- `if err != nil { return 0, io.EOF }`
abbrev pub or_eof {ℓ} : {A : Type ℓ} → Result A → Result A
or_eof (ok a) = ok a
or_eof (err e) = err eof
or_eof (fault x) = fault x

-- A reader takes a prefix of `least` bytes at least, does not look past it, and fails by EOF only.
pub record IsReader {ℓ} {A : Type ℓ} (least : ℕ) (p : Reader A) : Type ℓ where
  pub takes :
      (bs : Bytes) (a : A) (rest : Bytes)
      → p bs ≡ ok (a, rest)
      → (used : Bytes) × (bs ≡ used ++ rest) × (least ≤ length used)
  pub extends :
      (bs more : Bytes) (a : A) (rest : Bytes)
      → p bs ≡ ok (a, rest)
      → p (bs ++ more) ≡ ok (a, rest ++ more)
  pub ends : (bs : Bytes) → ((q : A × Bytes) × (p bs ≡ ok q)) ⊎ (p bs ≡ err eof)

pub pure-IsReader {ℓ} : {A : Type ℓ} (a : A) → IsReader 0 (λ bs. ok (a, bs))
pure-IsReader a = record {
  takes = λ bs b rest h. ([], ground arith, omega arith);
  extends = λ bs more b rest h. ground arith;
  ends = λ bs. inl ((a, bs), refl);
}

module _ {ℓ κ} {A : Type ℓ} {B : Type κ} {m n : ℕ} (p : Reader A) (f : A → Reader B)
    (rp : IsReader m p) (rf : (a : A) → IsReader n (f a)) where
  bind-takes :
      (bs : Bytes) (b : B) (rest : Bytes)
      → (p bs >>= λ q. f q.0 q.1) ≡ ok (b, rest)
      → (used : Bytes) × (bs ≡ used ++ rest) × (m + n ≤ length used)
  bind-takes bs b rest h =
      let ((a, mid), e, k) = >>=-eq-ok (p bs) (λ q. f q.0 q.1) h in
      let (u, eu, lu) = rp.takes bs a mid e in
      let (v, ev, lv) = (rf a).takes mid b rest k in
      (
        u ++ v,
        eu ∙ ap (λ t. u ++ t) ev ∙ sym (append_assoc u v rest),
        omega (arith, length-append u v, lu, lv),
      )

  bind-extends :
      (bs more : Bytes) (b : B) (rest : Bytes)
      → (p bs >>= λ q. f q.0 q.1) ≡ ok (b, rest)
      → (p (bs ++ more) >>= λ q. f q.0 q.1) ≡ ok (b, rest ++ more)
  bind-extends bs more b rest h =
      let ((a, mid), e, k) = >>=-eq-ok (p bs) (λ q. f q.0 q.1) h in
      rw (rp.extends bs more a mid e) ((rf a).extends mid more b rest k)

  bind-ends :
      (bs : Bytes)
      → ((q : B × Bytes) × ((p bs >>= λ q. f q.0 q.1) ≡ ok q))
        ⊎ ((p bs >>= λ q. f q.0 q.1) ≡ err eof)
  bind-ends bs = elim (rp.ends bs) [
    | inl ((a, mid), e) ↦ rw e ((rf a).ends mid)
    | inr e ↦ rw e (inr refl)
  ]

  pub bind-IsReader : IsReader (m + n) (λ bs. p bs >>= λ q. f q.0 q.1)
  bind-IsReader = record { takes = bind-takes; extends = bind-extends; ends = bind-ends }

-- A reader that takes more bytes takes fewer, too.
pub weaken {ℓ} : {A : Type ℓ} {m : ℕ} (n : ℕ) (p : Reader A) → n ≤ m → IsReader m p → IsReader n p
weaken n p h r = record {
  takes = λ bs a rest e. let (u, eu, lu) = r.takes bs a rest e in (u, eu, omega (arith, lu));
  extends = r.extends;
  ends = r.ends;
}

read_full_cases :
    (w : ℕ) (bs : Bytes)
    → ((w ≤ length bs) × (or_eof (read_full w bs) ≡ ok (take w bs, drop w bs)))
      ⊎ (or_eof (read_full w bs) ≡ err eof)
unfolding read_full
read_full_cases w bs = elim (Bool-cases (ltb (length bs) w)) [
  | inl h ↦ inr (rw h)
  | inr h ↦ inl (ltb→le _ _ h, rw h)
]

pub read_full-IsReader : (w : ℕ) → IsReader w (λ bs. or_eof (read_full w bs))
read_full-IsReader w = record {
  takes = λ bs a rest h. elim (read_full_cases w bs) [
    | inl (l, e) ↦ (take w bs, cc (e, take-append-drop w bs, h), omega (arith, length-take w bs l))
    | inr e ↦ absurd (cc (e, h))
  ];
  extends = λ bs more a rest h. elim (read_full_cases w bs) [
    | inl (l, e) ↦ fits bs more a rest l (sym e ∙ h)
    | inr e ↦ absurd (cc (e, h))
  ];
  ends = λ bs. elim (read_full_cases w bs) [
    | inl (l, e) ↦ inl ((take w bs, drop w bs), e)
    | inr e ↦ inr e
  ];
}
  where
    fits :
        (bs more a rest : Bytes)
        → w ≤ length bs
        → ◌≡◌ {A = Result (Bytes × Bytes)} (ok (take w bs, drop w bs)) (ok (a, rest))
        → or_eof (read_full w (bs ++ more)) ≡ ok (a, rest ++ more)
    fits bs more a rest l h = elim (read_full_cases w (bs ++ more)) [
      | inl (l', e) ↦ cc (e, h, take-append_le w bs more l, drop-append_le w bs more l)
      | inr e ↦ absurd (long e)
    ]
      where
        long : or_eof (read_full w (bs ++ more)) ≡ err eof → ⊥
        long e = unfold read_full in ground (arith, length-append bs more, e)

or_eof-bind {ℓ κ} :
    {A : Type ℓ} {B : Type κ} (m : Result A) (g : A → B)
    → (or_eof m >>= λ a. ok (g a)) ≡ or_eof (m >>= λ a. ok (g a))
or_eof-bind (ok a) g = refl
or_eof-bind (err e) g = refl
or_eof-bind (fault x) g = refl

pub read_be-IsReader : (w : ℕ) → IsReader w (λ bs. or_eof (read_be w bs))
unfolding read_be
read_be-IsReader w =
    let g : Bytes × Bytes → ℕ × Bytes = λ p. (be_value p.0, p.1) in
    subst (IsReader w) (fun_ext λ bs. or_eof-bind (read_full w bs) g) (
      weaken w _ (omega arith) (
        bind-IsReader _ (λ a bs. ok (be_value a, bs)) (read_full-IsReader w)
          (λ a. pure-IsReader (be_value a))))

read_byte-ends :
    (bs : Bytes)
    → ((q : ℕ × Bytes) × (or_eof (read_byte bs) ≡ ok q)) ⊎ (or_eof (read_byte bs) ≡ err eof)
unfolding read_byte
read_byte-ends [] = inr refl
read_byte-ends (b ∷ bs) = inl ((b, bs), refl)

pub read_byte-IsReader : IsReader 1 (λ bs. or_eof (read_byte bs))
unfolding read_byte
read_byte-IsReader = record { takes = taken; extends = extended; ends = read_byte-ends }
  where
    taken :
        (bs : Bytes) (a : ℕ) (rest : Bytes)
        → or_eof (read_byte bs) ≡ ok (a, rest)
        → (used : Bytes) × (bs ≡ used ++ rest) × (1 ≤ length used)
    taken [] a rest h = cc
    taken (b ∷ bs) a rest h = (b ∷ [], ground arith, omega arith)

    extended :
        (bs more : Bytes) (a : ℕ) (rest : Bytes)
        → or_eof (read_byte bs) ≡ ok (a, rest)
        → or_eof (read_byte (bs ++ more)) ≡ ok (a, rest ++ more)
    extended [] more a rest h = cc
    extended (b ∷ bs) more a rest h = ground arith

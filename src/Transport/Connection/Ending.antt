-- ===== src/Transport/Connection/Ending.antt =====
-- When the loop of a connection ends.
use laguna.Prelude.{
  ℕ, zero, suc, ◌≡◌, ◌≢◌, refl, ap, ◌∙◌, arith, [], ◌∷◌, Bytes, Bool, Bool-cases, inl, inr, true,
  false, Option, none, some, ◌==◌, if◌then◌else◌, Error, Fault, Result, ok, err, fault,
}
use laguna.Utils.Context.{Ctx, unless_done}
use laguna.Database.{Wal}
use laguna.Handlers.{Input, read_line, is_eof_error, Server, write_error, handle}
use laguna.Transport.Connection.{Loop, looping, after_line, left_over, on_return, handle_connection}

-- How many line feeds there are.
abbrev pub lines : Bytes → ℕ
lines [] = 0
lines (b ∷ bs) = if b == 10 then suc (lines bs) else lines bs

-- Without a line feed the whole input is read, and its error is returned.
read_line-none : (bs : Bytes) (status : Error) → lines bs ≡ 0 → read_line bs status ≡ err status
unfolding read_line
read_line-none [] status h = refl
read_line-none (b ∷ bs) status h = elim (Bool-cases (b == 10)) [
  | inl y ↦ absurd (omega (arith, rw y at h))
  | inr n ↦ rw (n, read_line-none bs status (rw n at h))
]

lines-after_line : (bs : Bytes) (n : ℕ) → lines bs ≡ suc n → lines (after_line bs) ≡ n
unfolding after_line
lines-after_line [] n h = absurd (omega (arith, h))
lines-after_line (b ∷ bs) n h = elim (Bool-cases (b == 10)) [
  | inl y ↦ rw y (omega (arith, rw y at h))
  | inr m ↦ rw m (lines-after_line bs n (rw m at h))
]

pub left_over-alive :
    (o : Option Error) (input : Input)
    → o ≡ none
    → left_over o input ≡ record input { bytes = after_line input.bytes }
left_over-alive none input h = refl
left_over-alive (some e) input h = absurd (cc h)

module _ (w : Wal) (is_net_error : Error → Bool) (ctx : Ctx) where
  -- A call either goes on with the next round, or the loop ends in a call that never returns or behind
  -- it.
  on_return-ends :
      (p : Server w × Result (Unit {0})) (next : Server w → Server w × Loop)
      → ((s : Server w) → (next s).1 ≢ looping)
      → (on_return w is_net_error ctx p next).1 ≢ looping
  on_return-ends (s, ok _) next h = h s
  on_return-ends (s, err e) next h = elim (Bool-cases (is_eof_error e)) [
    | inl y ↦ rw y (λ k. cc k)
    | inr n ↦ elim (Bool-cases (is_net_error e)) [
      | inl y ↦ rw (n, y) (λ k. cc k)
      | inr m ↦ rw (n, m) (h s)
    ]
  ]
  on_return-ends (s, fault Fault.blocked_forever) next h = λ k. cc k
  on_return-ends (s, fault Fault.index_out_of_range) next h = λ k. cc k
  on_return-ends (s, fault Fault.slice_out_of_range) next h = λ k. cc k
  on_return-ends (s, fault Fault.nil_pointer) next h = λ k. cc k
  on_return-ends (s, fault Fault.int63n_argument) next h = λ k. cc k
  on_return-ends (s, fault Fault.makechan_size) next h = λ k. cc k

  pub handle-eof :
      (input : Input) (s : Server w)
      → ctx.err ≡ none
      → is_eof_error input.status ≡ true
      → lines input.bytes ≡ 0
      → handle w ctx input s ≡ (s, err input.status)
  unfolding handle write_error
  handle-eof input s c x n = simp (c, read_line-none input.bytes input.status n, x)

  ends :
      (n : ℕ) (input : Input) (s : Server w)
      → ctx.err ≡ none
      → is_eof_error input.status ≡ true
      → lines input.bytes ≡ n
      → (handle_connection w is_net_error ctx (suc n) input s).1 ≢ looping
  unfolding handle_connection
  ends zero input s c x l = rw (handle-eof input s c x l, x) (λ k. cc k)
  ends (suc n) input s c x l = on_return-ends (handle w ctx input s) _ λ s'.
      ends n (left_over ctx.err input) s' c
        (ap (λ (i : Input). is_eof_error i.status) (left_over-alive ctx.err input c) ∙ x)
        (ap (λ (i : Input). lines i.bytes) (left_over-alive ctx.err input c)
          ∙ lines-after_line input.bytes n l)

  -- Whatever a client sends, and whatever the database and the connection do with it: if it closes its
  -- side and the context is not done, the loop goes through no more rounds than there are line feeds,
  -- and one more. It ends by then, unless a call of the handler never returns.
  pub connection_ends :
      (input : Input) (s : Server w)
      → ctx.err ≡ none
      → is_eof_error input.status ≡ true
      → (handle_connection w is_net_error ctx (suc (lines input.bytes)) input s).1 ≢ looping
  connection_ends input s c x = ends (lines input.bytes) input s c x refl

  -- Once the context is done, with an error that is neither the end of the input nor one of the network,
  -- the loop never ends: after any number of rounds it goes on, and the server is as it was.
  pub canceled_connection :
      (e : Error) (n : ℕ) (input : Input) (s : Server w)
      → ctx.err ≡ some e
      → is_eof_error e ≡ false
      → is_net_error e ≡ false
      → handle_connection w is_net_error ctx n input s ≡ (s, looping)
  unfolding handle_connection
  canceled_connection e zero input s c x y = refl
  canceled_connection e (suc n) input s c x y =
      rw (refused, x, y) (canceled_connection e n (left_over ctx.err input) s c x y)
    where
      not_called :
          (o : Option Error) (call : Server w × Result (Unit {0}))
          → o ≡ some e
          → unless_done o s call ≡ (s, err e)
      not_called none call h = absurd (cc h)
      not_called (some d) call h = cc h

      refused : handle w ctx input s ≡ (s, err e)
      refused = unfold handle in not_called ctx.err _ c

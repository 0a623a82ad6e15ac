-- ===== src/Terminal/Loss.antt =====
-- What the loop over the terminal loses, and that it does not end with its input.
use laguna.Prelude.{
  ◌≡◌, refl, sym, ◌∙◌, List, [], ◌∷◌, ◌++◌, Bytes, true, Option, none, some, Error, eof, Result, ok,
  err, fault, index_out_of_range, slice_out_of_range, nil_pointer, int63n_argument, makechan_size,
  blocked_forever, All,
}
use laguna.Utils.Context.{Ctx}
use laguna.Database.{Wal}
use laguna.Handlers.{Input, read_line, Server, write_error, is_eof_error, handle}
use laguna.Handlers.Lines.{IsOneLine, read_line_lem}
use laguna.Terminal.{
  Stdin, has_line_feed, gather, Listening, listening, Round, gathered, prompted, read_by,
  on_handled, listen_loop, listen,
}

has_line_feed-line :
    (line more : Bytes) → IsOneLine line → has_line_feed (line ++ (10 ∷ more)) ≡ true
unfolding has_line_feed
has_line_feed-line [] more h = refl
has_line_feed-line (b ∷ bs) more h = rw (h.0, has_line_feed-line bs more h.1) refl

gather-line :
    (line more : Bytes) (rest : List Bytes)
    → IsOneLine line
    → gather ((line ++ (10 ∷ more)) ∷ rest) ≡ (line ++ (10 ∷ more), rest)
unfolding gather
gather-line line more rest h = rw (has_line_feed-line line more h) refl

-- One read that delivers a line, with more behind it.
abbrev pub delivers : Bytes → Bytes → List Bytes → Error → Stdin
delivers line more rest status = record { chunks = (line ++ (10 ∷ more)) ∷ rest; status = status }

abbrev pub at_end : Stdin
at_end = record { chunks = []; status = eof }

module _ (w : Wal) where
  -- The handler sees its input by the line that it reads.
  handle_cong :
      (ctx : Ctx) (i i' : Input) (s : Server w)
      → read_line i.bytes i.status ≡ read_line i'.bytes i'.status
      → handle w ctx i s ≡ handle w ctx i' s
  unfolding handle
  handle_cong ctx i i' s e = rw e refl

  on_handled_cong :
      (p : Server w × Result (Unit {0})) (f g : Server w → Server w × Listening)
      → ((s : Server w) → f s ≡ g s)
      → on_handled w p f ≡ on_handled w p g
  on_handled_cong (s, ok u) f g h = h s
  on_handled_cong (s, err e) f g h = h s
  on_handled_cong (s, fault index_out_of_range) f g h = refl
  on_handled_cong (s, fault slice_out_of_range) f g h = refl
  on_handled_cong (s, fault nil_pointer) f g h = refl
  on_handled_cong (s, fault int63n_argument) f g h = refl
  on_handled_cong (s, fault makechan_size) f g h = refl
  on_handled_cong (s, fault blocked_forever) f g h = refl

  gathered-delivers :
      (line more : Bytes) (rest : List Bytes) (status : Error)
      → IsOneLine line
      → read_line (gathered (delivers line more rest status)).bytes status ≡ ok (line ++ (10 ∷ []))
  gathered-delivers line more rest status h =
      rw (gather-line line more rest h) (read_line_lem line more status h)

  next_lost :
      (o : Option Error) (rounds : List Round) (line more : Bytes) (rest : List Bytes)
      (status : Error)
      → IsOneLine line
      → ((s : Server w)
          → listen_loop w rounds (delivers line more rest status) s
            ≡ listen_loop w rounds (delivers line [] rest status) s)
      → (s : Server w)
      → listen_loop w rounds (read_by o (delivers line more rest status)) s
        ≡ listen_loop w rounds (read_by o (delivers line [] rest status)) s
  next_lost none rounds line more rest status h again s =
      rw (gather-line line more rest h, gather-line line [] rest h) refl
  next_lost (some e) rounds line more rest status h again s = again s

  lost_round :
      (rounds : List Round) (ctx : Ctx) (line more : Bytes) (rest : List Bytes) (status : Error)
      → IsOneLine line
      → (s : Server w)
      → ((s' : Server w)
          → listen_loop w rounds (delivers line more rest status) s'
            ≡ listen_loop w rounds (delivers line [] rest status) s')
      → listen_loop w ((none, ctx) ∷ rounds) (delivers line more rest status) s
        ≡ listen_loop w ((none, ctx) ∷ rounds) (delivers line [] rest status) s
  unfolding listen_loop
  lost_round rounds ctx line more rest status h s again =
      let same : handle w ctx (gathered (delivers line more rest status)) s
          ≡ handle w ctx (gathered (delivers line [] rest status)) s =
        handle_cong ctx _ _ s (
          gathered-delivers line more rest status h
          ∙ sym (gathered-delivers line [] rest status h)) in
      rw same (
        on_handled_cong (handle w ctx (gathered (delivers line [] rest status)) s) _ _
          (next_lost ctx.err rounds line more rest status h again))

  loop_lost :
      (rounds : List Round) (line more : Bytes) (rest : List Bytes) (status : Error)
      → IsOneLine line
      → (s : Server w)
      → listen_loop w rounds (delivers line more rest status) s
        ≡ listen_loop w rounds (delivers line [] rest status) s
  loop_lost [] line more rest status h s = unfold listen_loop in refl
  loop_lost ((some e, ctx) ∷ rounds) line more rest status h s = unfold listen_loop in refl
  loop_lost ((none, ctx) ∷ rounds) line more rest status h s =
      lost_round rounds ctx line more rest status h s (loop_lost rounds line more rest status h)

  -- Where one read of the terminal delivers a line and more behind it, the database and the answers
  -- are those of a terminal that delivers the line alone: what is behind it is lost, also where it
  -- is a second line.
  pub behind_line_lost :
      (rounds : List Round) (line more : Bytes) (rest : List Bytes) (status : Error) (s : Server w)
      → IsOneLine line
      → listen w rounds (delivers line more rest status) s
        ≡ listen w rounds (delivers line [] rest status) s
  unfolding listen
  behind_line_lost rounds line more rest status s h =
      loop_lost rounds line more rest status h (prompted w s.failure s)

  read_by-end : (o : Option Error) → read_by o at_end ≡ at_end
  unfolding gather
  read_by-end none = refl
  read_by-end (some e) = refl

  handle-end :
      (ctx : Ctx) (s : Server w) → ctx.err ≡ none → handle w ctx (gathered at_end) s ≡ (s, err eof)
  unfolding gather handle read_line write_error is_eof_error
  handle-end ctx s h = rw h refl

  loop_spins :
      (rounds : List Round) (s : Server w)
      → All (λ (r : Round). (r.0 ≡ none) × (r.1.err ≡ none)) rounds
      → listen_loop w rounds at_end s ≡ (s, listening)
  unfolding listen_loop
  loop_spins [] s h = refl
  loop_spins ((found, ctx) ∷ rounds) s h =
      rw (h.0.0, handle-end ctx s h.0.1, read_by-end ctx.err, loop_spins rounds s h.1) refl

  -- At the end of its input, and until its context is done, the loop goes round and round: after any
  -- number of rounds it has neither ended nor changed anything, behind the prompt.
  pub end_spins :
      (rounds : List Round) (s : Server w)
      → All (λ (r : Round). (r.0 ≡ none) × (r.1.err ≡ none)) rounds
      → listen w rounds at_end s ≡ (prompted w s.failure s, listening)
  unfolding listen
  end_spins rounds s h = loop_spins rounds (prompted w s.failure s) h

-- ===== src/Replication/Master/Answers.antt =====
-- What the master answers.
use laguna.Prelude.{
  ℕ, ◌==◌, ◌^◌, ◌<◌, ◌≡◌, ap, ◌∙◌, arith, List, [], ◌∷◌, ◌++◌, append-nil, take, take-append,
  length, Bytes, false, none, some, Error, index_not_found, no_new_logs, Result, ok, err,
}
use laguna.Prelude.Binary.{put_le, length-put_le}
use laguna.Prelude.Int.{pos}
use laguna.Utils.Context.{Ctx}
use laguna.Utils.Retry.{Waits, with_retry, retry_loop, shifted_delay, jitter}
use laguna.Utils.Retry.Laws.{with_retry_first}
use laguna.Segment.Index.{IndexEntry}
use laguna.Wal.Row.{Row}
use laguna.Logs.Writer.{write_to}
use laguna.Replication.Protocol.{
  req_size, put_request, get_request, flatten, write_message, conn_target_write,
}
use laguna.Replication.Protocol.Messages.{get_request-put_request}
use laguna.Replication.Master.{
  Conn, send_out, get_req, write_error, is_not_found, lookup_attempt, find_index, on_index, handle,
}

take_all : (bs : Bytes) (n : ℕ) → length bs ≡ n → take n bs ≡ bs
take_all bs n h = rw (h, append-nil) at (take-append bs [])

get_req-put_request :
    (lsn : ℕ)
    → lsn < 2 ^ 64
    → get_req (ok (put_request (record { lsn_id = lsn }))) ≡ ok (record { lsn_id = lsn })
unfolding get_req put_request
get_req-put_request lsn h =
    let whole : take req_size (put_le req_size lsn) ≡ put_le req_size lsn =
      take_all (put_le req_size lsn) req_size (length-put_le req_size lsn) in
    let got : get_request (put_le req_size lsn ++ []) ≡ ok (record { lsn_id = lsn }) =
      get_request-put_request (record { lsn_id = lsn }) [] h in
    simp whole (simp append-nil at got)

module _ (lookups : ℕ → ℕ → Result IndexEntry) (waits : Waits)
    (rows_from : Bytes → ℕ → Result (List Row)) where
  -- A request for an id other than 0 that is found.
  find_first :
      (lsn : ℕ) (e : IndexEntry)
      → lookups lsn 0 ≡ ok e
      → find_index lookups waits rows_from lsn ≡ ok e
  unfolding find_index
  find_first lsn e h =
      ap (λ (p : ℕ × Result IndexEntry). p.1)
        (with_retry_first (pos 3) (pos 200000000) waits (lookup_attempt lookups waits rows_from lsn)
          0 1 e (ap (λ r. (1, r)) h))

  find_none :
      (lsn : ℕ) (e₀ e₁ e : Error)
      → lookups lsn 0 ≡ err e₀
      → lookups lsn 1 ≡ err e₁
      → lookups lsn 2 ≡ err e
      → ((n : ℕ) → waits n ≡ none)
      → find_index lookups waits rows_from lsn ≡ err e
  unfolding find_index with_retry retry_loop jitter shifted_delay
  find_none lsn e₀ e₁ e a b c w = rw (a, w 0, b, w 1, c, w 2)

  -- A request is passed to the search for its index.
  handle_request :
      (ctx : Ctx) (lsn : ℕ) (c : Conn)
      → ctx.err ≡ none
      → 0 < lsn
      → lsn < 2 ^ 64
      → handle lookups waits rows_from ctx (ok (put_request (record { lsn_id = lsn }))) c
        ≡ on_index lookups waits rows_from (find_index lookups waits rows_from lsn) c
  unfolding handle
  handle_request ctx lsn c d p b =
      let ne : (lsn == 0) ≡ false = ground arith in simp (d, get_req-put_request lsn b, ne)

  -- Where the id is in the index, and the log has rows from there on, all of them that the format can
  -- hold go to the connection as one message.
  pub handle_rows :
      (ctx : Ctx) (lsn : ℕ) (c : Conn) (e : IndexEntry) (r : Row) (rows : List Row) (bytes : Bytes)
      → ctx.err ≡ none
      → 0 < lsn
      → lsn < 2 ^ 64
      → c.failure ≡ none
      → lookups lsn 0 ≡ ok e
      → rows_from e.file_name e.offset ≡ ok (r ∷ rows)
      → flatten (r ∷ rows) ≡ ok bytes
      → handle lookups waits rows_from ctx (ok (put_request (record { lsn_id = lsn }))) c ≡ (
        record c { sent = c.sent ++ write_message (record { bytes = bytes; failure = none }) },
        ok tt,
      )
  handle_rows ctx lsn c e r rows bytes d p b q l h f =
      handle_request ctx lsn c d p b
      ∙ rw (find_first lsn e l) (unfold write_to conn_target_write send_out in simp (h, f, q))

  -- Where the index has no entry for the id at any of the three attempts, the answer is that there are
  -- no new logs.
  pub handle_missing :
      (ctx : Ctx) (lsn : ℕ) (c : Conn)
      → ctx.err ≡ none
      → 0 < lsn
      → lsn < 2 ^ 64
      → c.failure ≡ none
      → ((n : ℕ) → n < 3 → lookups lsn n ≡ err index_not_found)
      → ((n : ℕ) → waits n ≡ none)
      → handle lookups waits rows_from ctx (ok (put_request (record { lsn_id = lsn }))) c ≡ (
        record c {
          sent = c.sent ++ write_message (record { bytes = []; failure = some no_new_logs });
        },
        ok tt,
      )
  unfolding is_not_found write_error send_out
  handle_missing ctx lsn c d p b q l w =
      let missing =
        find_none lsn index_not_found index_not_found index_not_found (l 0 (omega arith))
          (l 1 (omega arith)) (l 2 (omega arith)) w in
      handle_request ctx lsn c d p b ∙ rw missing (simp q)

-- ===== src/Database/Log.antt =====
-- What the database relies on of its log, and what `setInWal` leaves in it.
use laguna.Prelude.{◌≡◌, refl, List, [], ◌∷◌, ◌++◌, true, false, Option, none, some, ◌==◌, concat}
use laguna.Prelude.{Error, Result, ok, err, fault, ◌>>>◌}
use laguna.Utils.Context.{Ctx}
use laguna.Query.{Query, get_method_id}
use laguna.Database.{answer, Wal, set_in_wal}
use mathlib.Core.List.{map}

-- What the database relies on of its log, between two calls, in the states that the log calls sound: a
-- query that it can take, and that was written and acknowledged, is the last of the log, and the stream
-- delivers the whole log in some batches. Both leave a sound state.
pub record Log (w : Wal) : Type 1 where
  pub entries : w.State → List Query
  pub IsGood : w.State → Type 0
  pub Takes : Query → Type 0
  pub accepted :
      (ctx : Ctx) (q : Query) (s s' s'' : w.State) (f : w.Future)
      → IsGood s
      → Takes q
      → w.write ctx q s ≡ (s', ok f)
      → w.response ctx f s' ≡ (s'', ok none)
      → IsGood s'' × (entries s'' ≡ entries s ++ (q ∷ [])) × (w.is_enable s'' ≡ w.is_enable s)
  pub restored :
      (s : w.State)
      → IsGood s
      → w.is_enable s ≡ true
      → (s' : w.State) × (batches : List (List Query)) × (w.restore_stream s
          ≡ (s', ok (map ok batches)))
        × (concat batches ≡ entries s)
        × IsGood s'
        × (entries s' ≡ entries s)
        × (w.is_enable s' ≡ true)

module _ (w : Wal) (l : Log w) (ctx : Ctx) (q : Query) (s : w.State) (g : l.IsGood s)
    (t : l.Takes q) where
  -- What an acknowledged write has done to the log.
  abbrev Logged : w.State → Type 0
  Logged s' =
      l.IsGood s' × (l.entries s' ≡ l.entries s ++ (q ∷ [])) × (w.is_enable s' ≡ w.is_enable s)

  responded :
      (f : w.Future) (s' : w.State) (p : w.State × Result (Option Error))
      → w.write ctx q s ≡ (s', ok f)
      → w.response ctx f s' ≡ p
      → (p >>> λ r s''. (s'', answer r)).1 ≡ ok tt
      → Logged (p >>> λ r s''. (s'', answer r)).0
  responded f s' (s'', ok none) e k h = l.accepted ctx q s s' s'' f g t e k
  responded f s' (s'', ok (some r)) e k h = absurd (cc h)
  responded f s' (s'', err r) e k h = absurd (cc h)
  responded f s' (s'', fault x) e k h = absurd (cc h)

  written :
      (p : w.State × Result w.Future)
      → w.write ctx q s ≡ p
      → (p >>> λ f s'. w.response ctx f s' >>> λ r s''. (s'', answer r)).1 ≡ ok tt
      → Logged (p >>> λ f s'. w.response ctx f s' >>> λ r s''. (s'', answer r)).0
  written (s', ok f) e h = responded f s' (w.response ctx f s') e refl h
  written (s', err r) e h = absurd (cc h)
  written (s', fault x) e h = absurd (cc h)

  pub set_in_wal_ok :
      (q.method_id == get_method_id) ≡ false
      → (set_in_wal w ctx q s).1 ≡ ok tt
      → Logged (set_in_wal w ctx q s).0
  unfolding set_in_wal
  set_in_wal_ok e h = rw e (written (w.write ctx q s) refl (rw e at h))

pub set_in_wal_get :
    (w : Wal) (ctx : Ctx) (q : Query) (s : w.State)
    → (q.method_id == get_method_id) ≡ true
    → set_in_wal w ctx q s ≡ (s, ok tt)
unfolding set_in_wal
set_in_wal_get w ctx q s e = rw e

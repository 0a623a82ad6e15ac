-- ===== src/Logs/Writer.antt =====
-- internal/database/logs/log_writer.go: rows go to a target, if there is one and there are rows.
use laguna.Prelude.{List, [], ◌∷◌, Option, none, some, codes, Result, ok, err, errors_new}
use laguna.Wal.Row.{Row}

-- A Target, by its method `Write`.
abbrev pub Target {ℓ} : Type ℓ → Type ℓ
Target S = List Row → S → S × Result (Unit {0})

-- `write`, behind both `Write` and `WriteTo`; a nil target is `none`.
unfoldable pub write_to {ℓ} :
    {S : Type ℓ} → Option (Target S) → List Row → S → S × Result (Unit {0})
write_to none rows s = (s, err (errors_new (codes "no target")))
write_to (some target) [] s = (s, ok tt)
write_to (some target) (r ∷ rows) s = target (r ∷ rows) s

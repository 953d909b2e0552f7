-- ===== src/Session/Sweep/Stores.antt =====
-- Both stores give the sweeper what it needs.
use homepad_api.Base.{
  ℕ, ◌≡◌, refl, ◌⊎◌, inl, inr, String, Bool, true, false, List, [], ◌∷◌, string_eq, lookup,
  filter_values, lookup-filter_values, filter_values-IsMap, IsMap, arith, ok, err,
}
use homepad_api.Session.{SessionErr, clock_now, is_live}
use homepad_api.Session.Memory
use homepad_api.Session.Memory.{Sessions, memory_store}
use homepad_api.Session.Pg.{PgStore, pg_store}
use homepad_api.Session.Pg
use homepad_api.Session.Pg.Laws.{expired-filter}
use homepad_api.Session.Sweep.{Sweepable}

module _ (sha256 : String → String) where
  unfoldable pub memory-Sweepable : Sweepable (memory_store sha256)
  unfolding Memory.delete_expired
  memory-Sweepable = record {
    IsValid = IsMap;
    holds = λ m h. lookup h m;
    keeps = λ clock m v. filter_values-IsMap (is_live (clock_now clock)) m v;
    sweeps = λ clock m n h v e. lookup-filter_values (is_live (clock_now clock)) h m v;
    fails = λ clock m e h v bad. absurd (ground arith);
  }

  -- The statement fails and changes nothing, or deletes the expired rows.
  abbrev Swept : ℕ → PgStore → Type 0
  Swept clock p =
      let (r, p') = Pg.delete_expired clock p in
      ((e : SessionErr) × (r ≡ err e) × (p'.rows ≡ p.rows))
      ⊎ ((n : ℕ) × (r ≡ ok n) × (p'.rows ≡ filter_values (is_live (clock_now clock)) p.rows))

  delete_expired-Swept :
      (clock : ℕ) (rows : Sessions) (faults : List Bool) (known : String → Bool)
      → Swept clock (record { rows = rows; faults = faults; known = known })
  unfolding Pg.delete_expired
  delete_expired-Swept clock rows [] known =
      inr (_, refl, (expired-filter (clock_now clock) rows).0)
  delete_expired-Swept clock rows (true ∷ fs) known = inl (_, refl, refl)
  delete_expired-Swept clock rows (false ∷ fs) known =
      inr (_, refl, (expired-filter (clock_now clock) rows).0)

  pg-Swept : (clock : ℕ) (p : PgStore) → Swept clock p
  pg-Swept clock p = delete_expired-Swept clock p.rows p.faults p.known

  pub pg-Sweepable : Sweepable (pg_store sha256)
  pg-Sweepable = record {
    IsValid = λ p. IsMap p.rows;
    holds = λ p h. lookup h p.rows;
    keeps = λ clock p v. elim (pg-Swept clock p) [
      | inl (e, bad, same) ↦ rw same v
      | inr (n, good, left) ↦ rw left (filter_values-IsMap (is_live (clock_now clock)) p.rows v)
    ];
    sweeps = λ clock p n h v swept. elim (pg-Swept clock p) [
      | inl (e, bad, same) ↦ absurd (ground arith)
      | inr (m, good, left) ↦ rw left (lookup-filter_values (is_live (clock_now clock)) h p.rows v)
    ];
    fails = λ clock p e h v bad. elim (pg-Swept clock p) [
      | inl (x, bad', same) ↦ rw same
      | inr (m, good, left) ↦ absurd (ground arith)
    ];
  }

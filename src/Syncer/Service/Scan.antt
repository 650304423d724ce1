-- ===== src/Syncer/Service/Scan.antt =====
-- What a whole scan does to the log.
use mysql_to_mssql.Base.{
  ℕ, ◌≡◌, refl, sym, ap, ◌∙◌, Bool, false, ◌||◌, List, [], ◌∷◌, Bytes, ok, if◌then◌else◌, arith,
}
use mysql_to_mssql.Reflect.{Foreign, Struct}
use mysql_to_mssql.Db.Interface.{Interface, same}
use mysql_to_mssql.Syncer.Gob.{Gob}
use mysql_to_mssql.Syncer.Store.{bucket}
use mysql_to_mssql.Syncer.Target.{Target}
use mysql_to_mssql.Syncer.Service.{
  Progress, next, blocked, panicked, World, sync_table, sync_all_models, continue,
}
use mysql_to_mssql.Syncer.Service.Drain.{sync_table-drains}

-- The lists that a scan of the models reads.
abbrev pub covered : {f : Foreign} → List (Bytes × Struct f) → Bytes → Bytes → Bool
covered [] b k = false
covered ((table, _) ∷ models) b k = same bucket table b k || covered models b k

module _ {f : Foreign} (g : Gob f) (i : Interface g.Wire) (t : Target f) where
  continue_next :
      (x : Progress × World g i t) (rest : World g i t → Progress × World g i t)
      → (continue g i t x rest).0 ≡ next
      → (x.0 ≡ next) × (continue g i t x rest ≡ rest x.1)
  continue_next (next, w) rest h = (refl, refl)
  continue_next (blocked, w) rest h = cc
  continue_next (panicked, w) rest h = cc

module _ {f : Foreign} (g : Gob f) (i : Interface g.Wire) (t : Target f)
    (sizes : (b k : Bytes) (db : i.State) → (n : ℕ) × ((i.size b k db).0 ≡ ok n)) where
  -- Where sizes can be read, a scan of the service (no test) that comes to its end has emptied
  -- the logs of all its tables, and no other list of the storage has changed.
  pub sync_all_models-drains :
      (models : List (Bytes × Struct f)) (w : World g i t)
      → (sync_all_models g i t false models w).0 ≡ next
      → (b k : Bytes)
      → i.queue (sync_all_models g i t false models w).1.db b k
        ≡ (if covered models b k then [] else i.queue w.db b k)
  unfolding sync_all_models
  sync_all_models-drains [] w h b k = refl
  sync_all_models-drains ((table, model) ∷ models) w h b k =
      let x = sync_table g i t false table model w in
      let (h₁, h₂) = continue_next g i t x (λ w'. sync_all_models g i t false models w') h in
      let (n, e) = sizes bucket table w.db in
      rw h₂ (
        ground (
          arith,
          sync_table-drains g i t table model w n e h₁ b k,
          sync_all_models-drains models x.1 (sym (ap (λ (z : Progress × World g i t). z.0) h₂) ∙ h)
              b k,
        ))

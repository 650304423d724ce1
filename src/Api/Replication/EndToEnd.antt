-- ===== src/Api/Replication/EndToEnd.antt =====
-- From the events of the binlog and the ticks to the statements on the target.
use mysql_to_mssql.Base.{ℕ, ◌≤◌, ◌<◌, ◌≡◌, false, List, Bytes, ok, length}
use mysql_to_mssql.Reflect.{Foreign, Struct}
use mysql_to_mssql.Db.Interface.{Interface}
use mysql_to_mssql.Parser.Rows.Layouts.{AllModels}
use mysql_to_mssql.Syncer.Columns.{Column, columns_of}
use mysql_to_mssql.Syncer.Gob.{Gob}
use mysql_to_mssql.Syncer.Store.{encode_bytes}
use mysql_to_mssql.Syncer.Store.RoundTrip.{Event, record_of}
use mysql_to_mssql.Syncer.Target.{Target}
use mysql_to_mssql.Syncer.Writer.Cache.{IsCoherent}
use mysql_to_mssql.Syncer.Writer.Ran.{Ran}
use mysql_to_mssql.Api.Models.{Dynamic}
use mysql_to_mssql.Api.{Packages, Api}
use mysql_to_mssql.Api.Replication.{Replica}

module _ {f : Foreign} (g : Gob f) (i : Interface g.Wire) (t : Target f) (d : Dynamic)
    (k : Packages g.Wire) (schema : Bytes → List Column)
    (sizes : (b k : Bytes) (db : i.State) → (n : ℕ) × ((i.size b k db).0 ≡ ok n))
    (lists : (b k : Bytes) (db : i.State) → (l : List g.Wire) × ((i.get_all_key b k db).0 ≡ ok l))
    (rems : (b k : Bytes) (n : ℕ) (db : i.State)
      → 0 < n
      → n ≤ length (i.queue db b k)
      → (i.rem b k n db).0 ≡ ok tt)
    (pushes : (b key : Bytes) (w : g.Wire) (db : i.State) → (i.push b key w db).0 ≡ ok tt)
    (encodes : (ev : Event f) → (w : g.Wire) × (encode_bytes g (record_of ev) ≡ ok w)) where
  -- A model has the columns of its table.
  abbrev pub HasColumns : Bytes → Struct f → Type 0
  HasColumns table p = (columns_of p false).0 ≡ schema table

  -- What holds between the inputs.
  abbrev pub Ready : Replica g i t → Type 0
  Ready r = AllModels HasColumns r.models × IsCoherent t schema r.syncer

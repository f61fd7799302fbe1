-- ===== src/Api/Routes/ReadOnly.antt =====
-- Which requests only read, by the routes of src/api.cpp.
use autodngconverter.Base.{
  ◌≡◌, refl, ◌∙◌, ap, Option, none, some, Bytes, codes, ℕ, ℤ, bytes_eq_iff, if-Holds,
}
use autodngconverter.Pipeline.Types.{ImportRecord}
use autodngconverter.Db.Server.{Trace}
use autodngconverter.Db.Listing.{ping}
use autodngconverter.Db.Writes.{
  written, ping-Reads, get_stats-Reads, list_imports-Reads, by_sequence-Reads, by_hash-Reads,
  by_source_path-Reads,
}
use autodngconverter.Api.Request.{Request, parse_request}
use autodngconverter.Api.World.{World, Services, show_found, on_db}
use autodngconverter.Api.Routes.{
  ready, stats, list, list_at, list_page, by_hash, by_source, by_sequence, route, handle,
}
use autodngconverter.Api.Routes.Cases.{Result, GetCases, get_route-Holds, handle-Holds}

-- The database is only read, and no intent is queued.
abbrev pub OnlyReads : World → Result → Type 0
OnlyReads w (o, v) = (written v.db ≡ written w.db) × (v.rotation ≡ w.rotation)

module _ (sv : Services) (r : Request) (w : World) where
  ready-OnlyReads : OnlyReads w (ready sv w)
  unfolding ready
  ready-OnlyReads =
      if-Holds (OnlyReads w) (ping sv.server w.db).0 _ _ (λ _. (ping-Reads sv.server w.db, refl))
        (λ _. (ping-Reads sv.server w.db, refl))

  show_found-OnlyReads :
      (o : Option ImportRecord) (t : Trace)
      → written t ≡ written w.db
      → OnlyReads w (show_found o (on_db w t))
  unfolding show_found
  show_found-OnlyReads none t h = (h, refl)
  show_found-OnlyReads (some i) t h = (h, refl)

  list_page-OnlyReads : (page limit : ℕ) → OnlyReads w (list_page sv r page limit w)
  unfolding list_page
  list_page-OnlyReads page limit = (
    get_stats-Reads sv.server sv.strtoll _
        ∙ list_imports-Reads sv.server sv.strtoll sv.atoi page limit _ _ w.db,
    refl,
  )

  list_at-OnlyReads : (page limit : Option ℤ) → OnlyReads w (list_at sv r page limit w)
  unfolding list_at
  list_at-OnlyReads (some page) (some limit) = list_page-OnlyReads _ _
  list_at-OnlyReads (some page) none = (refl, refl)
  list_at-OnlyReads none limit = (refl, refl)

  pub get-OnlyReads : GetCases sv (OnlyReads w) r w
  unfolding stats list by_hash by_source by_sequence
  get-OnlyReads = record {
    answered = λ s. (refl, refl);
    on_ready = ready-OnlyReads;
    on_stats = (get_stats-Reads sv.server sv.strtoll w.db, refl);
    on_list = list_at-OnlyReads _ _;
    on_hash = show_found-OnlyReads _ _ (by_hash-Reads sv.server sv.strtoll sv.atoi _ w.db);
    on_source = show_found-OnlyReads _ _ (by_source_path-Reads sv.server sv.strtoll sv.atoi _ w.db);
    on_sequence = show_found-OnlyReads _ _ (by_sequence-Reads sv.server sv.strtoll sv.atoi _ w.db);
  }

route-OnlyReads :
    (sv : Services) (r : Request) (w : World) → r.method ≡ codes "GET" → OnlyReads w (route sv r w)
unfolding route
route-OnlyReads sv r w h =
    let e = (bytes_eq_iff r.method (codes "GET")).1 h in
    rw (e) (get_route-Holds sv (OnlyReads w) r w (get-OnlyReads sv r w))

-- A request that is read with the method GET changes nothing in the database and queues no intent.
pub handle-OnlyReads :
    (sv : Services) (req : Bytes) (r : Request) (w : World)
    → parse_request req ≡ some r
    → r.method ≡ codes "GET"
    → OnlyReads w (handle sv req w)
handle-OnlyReads sv req r w h g =
    handle-Holds sv (OnlyReads w) req w (λ s. (refl, refl))
      (λ q e _. let k : q ≡ r = cc in route-OnlyReads sv q w (ap (λ x. x.method) k ∙ g))

-- ===== src/Repository/Postgres/Laws.antt =====
-- Two calls of internal/repository/postgres/store.go, from its contract.
use review_workflow.Base.{◌≡◌, ◌≢◌}
use review_workflow.Base.Int.{ℤ}
use review_workflow.Domain.{Request}
use review_workflow.Application.Errors.{ok}
use review_workflow.Application.Contract.Race.{updates-win_once, Reads}
use review_workflow.Application.Contract.Race as Race
use review_workflow.Repository.Pool.{Pool}
use review_workflow.Repository.Pool.Database.{Tables, IsDatabase}
use review_workflow.Repository.Postgres.{create_request, get_request, update_request}
use review_workflow.Repository.Postgres.Held.{HasKeys, Unchanged, quiet}
use review_workflow.Repository.Postgres.Fulfils.{postgres_store-Contract}

module _ {D : Type 0} (pool : Pool D) (tables : D → Tables) (db : IsDatabase pool tables) where
  -- Over a pool that behaves as documented, of two updates of one request that expect the same
  -- version, where the first moves the version on, only one is accepted, whatever happens to other
  -- tables in between.
  pub update_request-wins_once :
      (req req' : Request) (expected : ℤ) (d t : D)
      → HasKeys tables d
      → req'.id ≡ req.id
      → req.version ≢ expected
      → (update_request pool req expected d).0 ≡ ok tt
      → Unchanged tables (update_request pool req expected d).1 t
      → (update_request pool req' expected t).0 ≢ ok tt
  update_request-wins_once req req' expected d t v same bumped first between =
      let c = postgres_store-Contract pool tables db in
      updates-win_once c req req' expected d t v same bumped first (
        quiet tables (update_request pool req expected d).1 t between
          (c.updates req expected d v).0)

  -- Over a pool that behaves as documented, a read of a request that was created, while the requests
  -- stay as its insertion left them, gives a request with the same identity, content, status,
  -- version and counters, or fails for another reason than a missing row.
  pub create_request-get_request :
      (req : Request) (d t : D)
      → HasKeys tables d
      → (create_request pool req d).0 ≡ ok tt
      → Unchanged tables (create_request pool req d).1 t
      → Reads req (get_request pool req.id t).0
  create_request-get_request req d t v accepted between =
      let c = postgres_store-Contract pool tables db in
      Race.create_request-get_request c req d t v accepted
        (quiet tables (create_request pool req d).1 t between (c.creates req d v).0)

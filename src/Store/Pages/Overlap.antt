-- ===== src/Store/Pages/Overlap.antt =====
-- How the pages of packages/core/src/lib/datastore/db-impl.ts follow one another.
use tern_scheduler.Prelude.{
  ℕ, zero, suc, ◌+◌, ◌<◌, List, [], ◌∷◌, take, drop, filter, length, length-take, length-drop, ◌≡◌,
  refl, arith, sym, ◌∙◌, some, none, false,
}
use tern_scheduler.Model.Value.{flag}
use tern_scheduler.Model.Schedule.{ScheduledJob, pasture_column}
use tern_scheduler.Errors.Exec.{ok}
use tern_scheduler.Db.Conditional.{equals}
use tern_scheduler.Db.MemTable
use tern_scheduler.Db.MemTable.{row_matches}
use tern_scheduler.Store.Database.{Database, job_model, find_jobs}
use tern_scheduler.Store.Pages.{Page, num, page_results, parse_page_key, get_active_scheduled_jobs}

module _ {A : Type 0} where
  drop-nil : (n : ℕ) → drop {A = A} n [] ≡ []
  drop-nil zero = refl
  drop-nil (suc n) = refl

  drop-drop : (m n : ℕ) (xs : List A) → drop n (drop m xs) ≡ drop (m + n) xs
  drop-drop zero n xs = ground arith
  drop-drop (suc m) n [] = drop-nil n ∙ sym (drop-nil (suc m + n))
  drop-drop (suc m) n (x ∷ xs) =
      let e : suc m + n ≡ suc (m + n) = omega arith in rw e (drop-drop m n xs)

  drop-take-suc : (n : ℕ) (xs : List A) → drop n (take (n + 1) xs) ≡ take 1 (drop n xs)
  drop-take-suc zero xs = ground arith
  drop-take-suc (suc n) [] = ground arith
  drop-take-suc (suc n) (x ∷ xs) = ground (arith, drop-take-suc n xs)

  -- What `find(start, limit + 1)` and `pageResults` make of the matching rows.
  abbrev page_of : List A → ℕ → ℕ → Page A
  page_of rows start limit = page_results (take (limit + 1) (drop start rows)) (num start) limit

  page_of-length :
      (rows : List A) (start limit : ℕ)
      → start + limit < length rows
      → length (take (limit + 1) (drop start rows)) ≡ limit + 1
  page_of-length rows start limit h =
      omega (arith, length-take (limit + 1) (drop start rows), length-drop start rows)

  page_of-size : (rows : List A) (start limit : ℕ) → (page_of rows start limit).page_size ≡ limit
  unfolding page_results
  page_of-size rows start limit = ground arith

  page_of-overlap :
      (rows : List A) (start limit : ℕ)
      → start + limit < length rows
      → ((page_of rows start limit).next_page_key ≡ some (num (start + limit)))
        × (length (page_of rows start limit).page ≡ limit + 1)
        × (drop limit (page_of rows start limit).page ≡ take 1 (drop (start + limit) rows))
  unfolding page_results
  page_of-overlap rows start limit h = (
    ground (arith, page_of-length rows start limit),
    ground (arith, page_of-length rows start limit),
    ground (
      arith,
      page_of-length rows start limit,
      drop-take-suc limit (drop start rows),
      drop-drop start limit rows,
    ),
  )

-- The scheduled jobs that are not out to pasture, in the order of their creation.
abbrev pub active_jobs : Database → List ScheduledJob
active_jobs db =
    filter (row_matches job_model none (some (equals pasture_column (flag false)))) db.jobs.rows

-- Pages of active scheduled jobs, while more than `limit` of them stand from the start on: the
-- page holds `limit + 1` jobs, one more than the page size that it states, and its last job is the
-- one at the index that the next page's key names, so that two pages in a row share a job.
pub active_pages_overlap :
    (db : Database) (start limit : ℕ)
    → start + limit < length (active_jobs db)
    → (p : Page ScheduledJob) × (get_active_scheduled_jobs (some (num start)) limit db ≡ (ok p, db))
      × (p.page_size ≡ limit)
      × (p.next_page_key ≡ some (num (start + limit)))
      × (length p.page ≡ limit + 1)
      × (drop limit p.page ≡ take 1 (drop (start + limit) (active_jobs db)))
unfolding get_active_scheduled_jobs find_jobs MemTable.find parse_page_key
active_pages_overlap db start limit h =
    let q = page_of-overlap (active_jobs db) start limit h in
    (
      page_of (active_jobs db) start limit,
      refl,
      page_of-size (active_jobs db) start limit,
      q.0,
      q.1,
      q.2,
    )

-- ===== src/Jobs/Service/Sequence.antt =====
-- Requests for jobs in turn, while Redis may come and go: what job_service.py makes of them is a
-- list of rows and a queue of ids.
use mathlib.Core.Path.{subst}
use sirius_vkr.Prelude.{
  ℕ, suc, ◌≡◌, refl, sym, ap, ◌∙◌, Bool, true, false, ◌&&◌, List, [], ◌∷◌, ◌++◌, map, All, arith,
  ◌==◌, ==_refl, inl, inr, Bool-cases,
}
use sirius_vkr.Sql.{exists}
use sirius_vkr.Sql.Laws.{All-append, All-weaken, exists-append}
use sirius_vkr.Models.Jobs.{Job}
use sirius_vkr.Session.{get_db}
use sirius_vkr.Schemas.Job.{JobCreate, JobStreamMessage}
use sirius_vkr.Jobs.Queue.{World, ensure_consumer_group, publish_job}
use sirius_vkr.Jobs.Service.{new_job, stream_message, persist_job, create_job}

-- A request, and whether Redis answers each of its two commands.
pub record Request : Type 0 where
  pub body : JobCreate
  pub group_answered : Bool
  pub add_answered : Bool

-- The handler in its session, with the answers of Redis.
unfoldable pub request_job : Request → World → World
unfolding create_job get_db
request_job r w =
    let (result, w') = create_job r.body (record w {
      redis = record w.redis { group_answered = r.group_answered; add_answered = r.add_answered };
    }) in
    record w' { session = (get_db (λ s. (result, s)) w'.session).1 }

unfoldable pub serve : List Request → World → World
unfolding request_job
serve [] w = w
serve (r ∷ rs) w = serve rs (request_job r w)

-- The abstract view: the ids of the jobs, and those that wait on the stream.
pub record Waiting : Type 0 where
  pub rows : List ℕ
  pub queued : List ℕ

-- An id is added to both, or to the rows alone.
abbrev pub enqueue : ℕ → Bool → Waiting → Waiting
enqueue k true q = record { rows = q.rows ++ k ∷ []; queued = q.queued ++ k ∷ [] }
enqueue k false q = record { rows = q.rows ++ k ∷ []; queued = q.queued }

-- The requests in turn, by the supply of ids and how many are taken.
abbrev pub enqueue_all : (ℕ → ℕ) → ℕ → List Request → Waiting → Waiting
enqueue_all fresh n [] q = q
enqueue_all fresh n (r ∷ rs) q =
    enqueue_all fresh (suc n) rs (enqueue (fresh n) (r.group_answered && r.add_answered) q)

abbrev pub view : World → Waiting
view w = record {
  rows = map (λ (j : Job). j.id) w.session.pending.jobs;
  queued = map (λ (m : JobStreamMessage). m.job_id) w.redis.entries;
}

map-append :
    {A B : Type 0} (f : A → B) (xs : List A) (x : A) → map f (xs ++ x ∷ []) ≡ map f xs ++ f x ∷ []
map-append f [] x = refl
map-append f (y ∷ ys) x = ap (λ zs. f y ∷ zs) (map-append f ys x)

request_job-fields :
    (r : Request) (w : World)
    → let w' = request_job r w in
      let job = new_job (w.session.fresh w.session.drawn) w.session.clock r.body.type in
      (w'.session.pending.jobs ≡ w.session.pending.jobs ++ job ∷ [])
      × (w'.session.fresh ≡ w.session.fresh)
      × (w'.session.drawn ≡ suc w.session.drawn)
unfolding request_job get_db create_job persist_job publish_job ensure_consumer_group
request_job-fields r w = ground arith

request_job-queued :
    (r : Request) (w : World)
    → (r.group_answered && r.add_answered) ≡ true
    → let job = new_job (w.session.fresh w.session.drawn) w.session.clock r.body.type in
      (request_job r w).redis.entries
      ≡ w.redis.entries ++ stream_message job r.body w.session.clock ∷ []
unfolding request_job get_db create_job persist_job publish_job ensure_consumer_group
request_job-queued r w h = ground arith

request_job-lost :
    (r : Request) (w : World)
    → (r.group_answered && r.add_answered) ≡ false
    → (request_job r w).redis.entries ≡ w.redis.entries
unfolding request_job get_db create_job persist_job publish_job ensure_consumer_group
request_job-lost r w h = ground arith

abbrev ids : List Job → List ℕ
ids jobs = map (λ (j : Job). j.id) jobs

abbrev message_ids : List JobStreamMessage → List ℕ
message_ids entries = map (λ (m : JobStreamMessage). m.job_id) entries

request_job-enqueue :
    (r : Request) (w : World)
    → view (request_job r w)
      ≡ enqueue (w.session.fresh w.session.drawn) (r.group_answered && r.add_answered) (view w)
unfolding new_job stream_message
request_job-enqueue r w =
    let (rows, _, _) = request_job-fields r w in
    let job = new_job (w.session.fresh w.session.drawn) w.session.clock r.body.type in
    let more = ap ids rows ∙ map-append (λ (j : Job). j.id) w.session.pending.jobs job in
    elim (Bool-cases (r.group_answered && r.add_answered)) [
      | inl answered ↦
          let entries =
            ap message_ids (request_job-queued r w answered)
            ∙ map-append (λ (m : JobStreamMessage). m.job_id) w.redis.entries
                (stream_message job r.body w.session.clock) in
          rw (answered, more, entries) refl
      | inr silent ↦ rw (silent, more, request_job-lost r w silent) refl
    ]

-- Whatever requests come and whatever Redis answers to each, the ids of the rows and those on the
-- stream are what the abstract queue makes of the requests.
pub serve-enqueue_all :
    (rs : List Request) (w : World)
    → view (serve rs w) ≡ enqueue_all w.session.fresh w.session.drawn rs (view w)
unfolding serve
serve-enqueue_all [] w = refl
serve-enqueue_all (r ∷ rs) w =
    let (_, fresh, drawn) = request_job-fields r w in
    serve-enqueue_all rs (request_job r w) ∙ rw (fresh, drawn, request_job-enqueue r w) refl

-- Each id that waits has its row.
abbrev pub IsBacked : Waiting → Type 0
IsBacked q = All (λ k. exists (λ j. j == k) q.rows ≡ true) q.queued

enqueue-IsBacked : (k : ℕ) (b : Bool) (q : Waiting) → IsBacked q → IsBacked (enqueue k b q)
enqueue-IsBacked k b q h =
    let still : All (λ m. exists (λ j. j == m) (q.rows ++ k ∷ []) ≡ true) q.queued =
      All-weaken (λ m. exists (λ j. j == m) q.rows ≡ true) _ q.queued
        (λ m there. exists-append (λ j. j == m) q.rows (k ∷ []) ∙ rw there refl) h in
    by_answer b still
  where
    by_answer :
        (b : Bool)
        → All (λ m. exists (λ j. j == m) (q.rows ++ k ∷ []) ≡ true) q.queued
        → IsBacked (enqueue k b q)
    by_answer true still =
        All-append (λ m. exists (λ j. j == m) (q.rows ++ k ∷ []) ≡ true) q.queued (k ∷ []) still
          (exists-append (λ j. j == k) q.rows (k ∷ []) ∙ ground (arith, ==_refl k), tt)
    by_answer false still = still

enqueue_all-IsBacked :
    (fresh : ℕ → ℕ) (n : ℕ) (rs : List Request) (q : Waiting)
    → IsBacked q
    → IsBacked (enqueue_all fresh n rs q)
enqueue_all-IsBacked fresh n [] q h = h
enqueue_all-IsBacked fresh n (r ∷ rs) q h =
    enqueue_all-IsBacked fresh (suc n) rs _
      (enqueue-IsBacked (fresh n) (r.group_answered && r.add_answered) q h)

-- Where every message on the stream has the row of its job, it is so after any requests, whatever
-- Redis answers.
pub serve-IsBacked :
    (rs : List Request) (w : World) → IsBacked (view w) → IsBacked (view (serve rs w))
serve-IsBacked rs w h =
    subst IsBacked (sym (serve-enqueue_all rs w))
      (enqueue_all-IsBacked w.session.fresh w.session.drawn rs (view w) h)

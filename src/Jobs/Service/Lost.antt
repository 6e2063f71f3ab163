-- ===== src/Jobs/Service/Lost.antt =====
-- A job whose message Redis did not take, and the requests after it.
use mathlib.Core.Path.{subst}
use sirius_vkr.Prelude.{
  ℕ, suc, ◌<◌, ◌≤◌, ◌≡◌, refl, sym, ap, ◌∙◌, Bool, true, false, ◌&&◌, List, [], ◌∷◌, arith, ◌==◌,
  ==_refl,
}
use sirius_vkr.Sql.{exists}
use sirius_vkr.Sql.Laws.{exists-append}
use sirius_vkr.Jobs.Queue.{World}
use sirius_vkr.Jobs.Service.Sequence.{
  Request, serve, Waiting, enqueue, enqueue_all, view, serve-enqueue_all,
}

-- An id among ids.
abbrev pub is_among : ℕ → List ℕ → Bool
is_among k ks = exists (λ j. j == k) ks

enqueue_row :
    (k j : ℕ) (b : Bool) (q : Waiting)
    → is_among k q.rows ≡ true
    → is_among k (enqueue j b q).rows ≡ true
enqueue_row k j true q h = exists-append (λ i. i == k) q.rows (j ∷ []) ∙ rw h refl
enqueue_row k j false q h = exists-append (λ i. i == k) q.rows (j ∷ []) ∙ rw h refl

enqueue_other :
    (k j : ℕ) (b : Bool) (q : Waiting)
    → (j == k) ≡ false
    → is_among k q.queued ≡ false
    → is_among k (enqueue j b q).queued ≡ false
enqueue_other k j true q other h =
    exists-append (λ i. i == k) q.queued (j ∷ []) ∙ rw (h, other) refl
enqueue_other k j false q other h = h

module _ (fresh : ℕ → ℕ) (k : ℕ) where
  -- An id that waits nowhere and is not drawn again never waits.
  enqueue_all_lost :
      (n : ℕ) (rs : List Request) (q : Waiting)
      → ((m : ℕ) → n ≤ m → (fresh m == k) ≡ false)
      → is_among k q.rows ≡ true
      → is_among k q.queued ≡ false
      → let q' = enqueue_all fresh n rs q in
        (is_among k q'.rows ≡ true) × (is_among k q'.queued ≡ false)
  enqueue_all_lost n [] q apart row none_queued = (row, none_queued)
  enqueue_all_lost n (r ∷ rs) q apart row none_queued =
      let b = r.group_answered && r.add_answered in
      enqueue_all_lost (suc n) rs (enqueue (fresh n) b q) (λ m h. apart m (omega arith))
        (enqueue_row k (fresh n) b q row)
        (enqueue_other k (fresh n) b q (apart n (omega arith)) none_queued)

-- Where Redis leaves a command of a request unanswered, the id drawn for it is no earlier message's,
-- and no later draw gives it again, then after any further requests the job has its row and is on no
-- message, whatever Redis answers to them.
pub serve_lost :
    (r : Request) (rs : List Request) (w : World)
    → (r.group_answered && r.add_answered) ≡ false
    → is_among (w.session.fresh w.session.drawn) (view w).queued ≡ false
    → ((m : ℕ)
        → w.session.drawn < m
        → (w.session.fresh m == w.session.fresh w.session.drawn) ≡ false)
    → let q = view (serve (r ∷ rs) w) in
      (is_among (w.session.fresh w.session.drawn) q.rows ≡ true)
      × (is_among (w.session.fresh w.session.drawn) q.queued ≡ false)
serve_lost r rs w silent unqueued apart =
    let k = w.session.fresh w.session.drawn in
    let n = w.session.drawn in
    let q = enqueue k false (view w) in
    let held = λ (v : Waiting). (is_among k v.rows ≡ true) × (is_among k v.queued ≡ false) in
    let first : enqueue k (r.group_answered && r.add_answered) (view w) ≡ q =
      ap (λ b. enqueue k b (view w)) silent in
    subst held
      (sym (serve-enqueue_all (r ∷ rs) w ∙ ap (enqueue_all w.session.fresh (suc n) rs) first))
      (enqueue_all_lost w.session.fresh k (suc n) rs q (λ m h. apart m (omega arith))
        (exists-append (λ i. i == k) (view w).rows (k ∷ []) ∙ ground (arith, ==_refl k)) unqueued)

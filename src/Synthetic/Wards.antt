-- ===== src/Synthetic/Wards.antt =====
-- generate_links of tools/gen_synthetic_data.py: every student gets one guardian or two.
use sirius_vkr.Prelude.{
  ◌≤◌, ◌<◌, ◌≡◌, refl, ◌∙◌, Bool, true, false, not, String, List, [], ◌∷◌, map, length, All,
  All-always, AreDistinct, arith, str_eq, str_eq_refl, str_eq_comm,
}
use sirius_vkr.Sql.{exists}
use sirius_vkr.Sql.Laws.{All-select, All-weaken}
use sirius_vkr.Synthetic.{Source, StudentRow, GuardianRow, Link, draw, choice}
use sirius_vkr.Synthetic.Links.{
  Linked, add_link, candidates, link_second, link_again, link_student, link_all, generate_links,
}
use sirius_vkr.Synthetic.Choices.{
  Gives, bind-Gives, pure-Gives, draw-Gives, choice-Gives, weaken-Gives,
}
use sirius_vkr.Synthetic.Pairs.{
  count_links, AreUnique, IsConsistent, add_link-IsConsistent, add_link-count, add_link-count_other,
  add_link-count_first,
}

-- One link or two.
abbrev pub HasGuardians : List Link → String → Type 0
HasGuardians links sid = (1 ≤ count_links sid links) × (count_links sid links ≤ 2)

-- A round for a student without links: one or two of them, and those of the others as before.
record Linking (P : Link → Type 0) (sid : String) (before after : Linked) : Type 0 where
  pub consistent : IsConsistent P after
  pub given : HasGuardians after.links sid
  pub others :
      (s : String) → str_eq sid s ≡ false → count_links s after.links ≡ count_links s before.links

module _ (source : Source) (P : Link → Type 0) (guardian_ids : List String) where
  -- Any guardian may be linked to the student.
  abbrev MayLink : String → Type 0
  MayLink sid = All (λ gid. P (record { student_id = sid; guardian_id = gid })) guardian_ids

  module _ (sid : String) (before : Linked) (h : IsConsistent P before)
      (none : count_links sid before.links ≡ 0) where
    first_link :
        (gid : String)
        → P (record { student_id = sid; guardian_id = gid })
        → Linking P sid before (add_link sid gid before)
    first_link gid p =
        let one = add_link-count_first P sid gid before h none in
        record {
          consistent = add_link-IsConsistent P sid gid before p h;
          given = (omega (arith, one), omega (arith, one));
          others = add_link-count_other P sid gid before;
        }

    second_link :
        (gid gid2 : String)
        → P (record { student_id = sid; guardian_id = gid })
        → P (record { student_id = sid; guardian_id = gid2 })
        → Linking P sid before (add_link sid gid2 (add_link sid gid before))
    second_link gid gid2 p p2 =
        let one = add_link-count_first P sid gid before h none in
        let middle = first_link gid p in
        let (grows, bounded) = add_link-count P sid gid2 (add_link sid gid before) sid in
        record {
          consistent =
              add_link-IsConsistent P sid gid2 (add_link sid gid before) p2 middle.consistent;
          given = (omega (arith, one, grows), omega (arith, one, bounded));
          others = λ s apart.
              add_link-count_other P sid gid2 (add_link sid gid before) s apart
              ∙ middle.others s apart;
        }

    link_second-Gives :
        (gid : String) (gids : List String)
        → P (record { student_id = sid; guardian_id = gid })
        → All (λ g. P (record { student_id = sid; guardian_id = g })) gids
        → Gives (Linking P sid before) (link_second source sid gids (add_link sid gid before))
    unfolding link_second
    link_second-Gives gid [] p ps = pure-Gives _ (add_link sid gid before) (first_link gid p)
    link_second-Gives gid (g ∷ gs) p ps =
        bind-Gives (λ g. P (record { student_id = sid; guardian_id = g })) _
          (choice source (g ∷ gs)) _ (choice-Gives source _ (g ∷ gs) ps (omega arith))
          (λ gid2 p2.
            pure-Gives _ (add_link sid gid2 (add_link sid gid before)) (second_link gid gid2 p p2))

    link_again-Gives :
        (second : Bool) (gid : String)
        → P (record { student_id = sid; guardian_id = gid })
        → MayLink sid
        → Gives
            (Linking P sid before)
            (link_again source second sid gid guardian_ids (add_link sid gid before))
    unfolding link_again candidates
    link_again-Gives true gid p ps =
        link_second-Gives gid (candidates gid guardian_ids) p
          (All-select _ (λ g. not (str_eq g gid)) guardian_ids ps)
    link_again-Gives false gid p ps = pure-Gives _ (add_link sid gid before) (first_link gid p)

    link_student-Gives :
        0 < length guardian_ids
        → MayLink sid
        → Gives (Linking P sid before) (link_student source guardian_ids sid before)
    unfolding link_student
    link_student-Gives some_guardian ps =
        bind-Gives (λ g. P (record { student_id = sid; guardian_id = g })) _
          (choice source guardian_ids) _ (choice-Gives source _ guardian_ids ps some_guardian)
          (λ gid p.
            bind-Gives (λ _. Unit {0}) _ (draw (λ k. source.is_below k 30)) _
              (draw-Gives _ (λ k. source.is_below k 30) (λ k. tt))
              (λ second _. link_again-Gives second gid p ps))

-- The whole loop.
record AllLinked (P : Link → Type 0) (sids : List String) (before after : Linked) : Type 0 where
  pub consistent : IsConsistent P after
  pub given : All (HasGuardians after.links) sids
  pub others :
      (s : String)
      → All (λ x. str_eq x s ≡ false) sids
      → count_links s after.links ≡ count_links s before.links

module _ (source : Source) (P : Link → Type 0) (guardian_ids : List String)
    (some_guardian : 0 < length guardian_ids) where
  link_all-Gives :
      (sids : List String) (before : Linked)
      → IsConsistent P before
      → AreDistinct sids
      → All (λ sid. count_links sid before.links ≡ 0) sids
      → All
          (λ sid. All (λ gid. P (record { student_id = sid; guardian_id = gid })) guardian_ids)
          sids
      → Gives (AllLinked P sids before) (link_all source guardian_ids sids before)
  unfolding link_all
  link_all-Gives [] before h d none ps =
      pure-Gives _ before (record { consistent = h; given = tt; others = λ s _. refl })
  link_all-Gives (sid ∷ sids) before h (apart, d) (none, nones) (p, ps) =
      bind-Gives _ _ (link_student source guardian_ids sid before) _
        (link_student-Gives source P guardian_ids sid before h none some_guardian p)
        (λ middle one.
          weaken-Gives _ _ (link_all source guardian_ids sids middle)
            (link_all-Gives sids middle one.consistent d (still_none middle sids one apart nones)
              ps)
            (λ after rest.
              let same = rest.others sid (swapped sids apart) in
              record {
                consistent = rest.consistent;
                given = (
                  (omega (arith, same, one.given.0), omega (arith, same, one.given.1)),
                  rest.given,
                );
                others = λ s (a, ds). rest.others s ds ∙ one.others s a;
              }))
    where
      still_none :
          (middle : Linked) (xs : List String)
          → Linking P sid before middle
          → All (λ y. str_eq sid y ≡ false) xs
          → All (λ y. count_links y before.links ≡ 0) xs
          → All (λ y. count_links y middle.links ≡ 0) xs
      still_none middle [] one ds zs = tt
      still_none middle (x ∷ xs) one (a, ds) (z, zs) =
          (one.others x a ∙ z, still_none middle xs one ds zs)

      swapped :
          (xs : List String)
          → All (λ y. str_eq sid y ≡ false) xs
          → All (λ y. str_eq y sid ≡ false) xs
      swapped [] ds = tt
      swapped (x ∷ xs) (a, ds) = (str_eq_comm x sid ∙ a, swapped xs ds)

-- A link of a student and a guardian that are there.
abbrev pub Refers : List String → List String → Link → Type 0
Refers sids gids l =
    (exists (λ s. str_eq s l.student_id) sids ≡ true)
    × (exists (λ g. str_eq g l.guardian_id) gids ≡ true)

-- Each text of a list is found in it.
pub member_self : (xs : List String) → All (λ x. exists (λ y. str_eq y x) xs ≡ true) xs
member_self [] = tt
member_self (x ∷ xs) = (
  rw (str_eq_refl x) refl,
  All-weaken (λ y. exists (λ z. str_eq z y) xs ≡ true)
      (λ y. exists (λ z. str_eq z y) (x ∷ xs) ≡ true) xs (λ y h. ground (arith, h))
      (member_self xs),
)

-- Where there is a guardian and the students have distinct ids, generate_links returns, no link
-- comes twice, each is between a student and a guardian that were given, and every student has one
-- link or two.
pub generate_links-Gives :
    (source : Source) (students : List StudentRow) (guardians : List GuardianRow)
    → 0 < length (map (λ (g : GuardianRow). g.id) guardians)
    → AreDistinct (map (λ (s : StudentRow). s.id) students)
    → Gives
        (λ links.
          AreUnique links
          × All
              (Refers
                (map (λ (s : StudentRow). s.id) students)
                (map (λ (g : GuardianRow). g.id) guardians))
              links
          × All (HasGuardians links) (map (λ (s : StudentRow). s.id) students))
        (generate_links source students guardians)
unfolding generate_links
generate_links-Gives source students guardians some_guardian distinct =
    let sids = map (λ (s : StudentRow). s.id) students in
    let gids = map (λ (g : GuardianRow). g.id) guardians in
    let P = Refers sids gids in
    let start : Linked = record { links = []; seen = [] } in
    let known =
      All-weaken _ (λ sid. All (λ gid. P (record { student_id = sid; guardian_id = gid })) gids)
        sids
        (λ sid there.
          All-weaken _ (λ gid. P (record { student_id = sid; guardian_id = gid })) gids
            (λ gid here. (there, here)) (member_self gids))
        (member_self sids) in
    bind-Gives _ _ (link_all source gids sids start) _
      (link_all-Gives source P gids some_guardian sids start
        (record { agree = λ s g. refl; unique = tt; valid = tt }) distinct
        (All-always _ sids (λ sid. refl)) known)
      (λ acc all. pure-Gives _ acc.links (all.consistent.unique, all.consistent.valid, all.given))

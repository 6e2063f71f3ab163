-- ===== src/Synthetic/Links.antt =====
-- generate_links of tools/gen_synthetic_data.py: one or two guardians for each student.
use sirius_vkr.Prelude.{Bool, not, ◌&&◌, String, List, [], ◌∷◌, ◌++◌, map, str_eq, if◌then◌else◌}
use sirius_vkr.Sql.{exists, select}
use sirius_vkr.Exec.{Exec, pure, ◌>>=◌}
use sirius_vkr.Synthetic.{Source, Run, StudentRow, GuardianRow, Link, draw, choice}

-- `links` and `seen`
pub record Linked : Type 0 where
  pub links : List Link
  pub seen : List (String × String)

abbrev pub is_pair : String → String → String × String → Bool
is_pair sid gid (s, g) = str_eq s sid && str_eq g gid

-- `if pair not in seen: links.append(...); seen.add(pair)`
unfoldable pub add_link : String → String → Linked → Linked
add_link sid gid acc = if exists (is_pair sid gid) acc.seen then acc else record {
  links = acc.links ++ record { student_id = sid; guardian_id = gid } ∷ [];
  seen = acc.seen ++ (sid, gid) ∷ [];
}

-- `[g for g in guardian_ids if g != gid]`
unfoldable pub candidates : String → List String → List String
candidates gid guardian_ids = select (λ g. not (str_eq g gid)) guardian_ids

module _ (source : Source) where
  -- The guardian that is chosen of the candidates, where there is one.
  unfoldable pub link_second : String → List String → Linked → Exec Run Linked
  unfolding choice add_link
  link_second sid [] acc = pure acc
  link_second sid (g ∷ gs) acc = do gid2 ← choice source (g ∷ gs); pure (add_link sid gid2 acc)

  unfoldable pub link_again : Bool → String → String → List String → Linked → Exec Run Linked
  unfolding link_second candidates
  link_again second sid gid guardian_ids acc =
      if second then link_second sid (candidates gid guardian_ids) acc else pure acc

  -- One round of the loop over the students.
  unfoldable pub link_student : List String → String → Linked → Exec Run Linked
  unfolding choice add_link link_again
  link_student guardian_ids sid acc = do
    gid ← choice source guardian_ids
    second ← draw (λ k. source.is_below k 30)
    link_again second sid gid guardian_ids (add_link sid gid acc)

  unfoldable pub link_all : List String → List String → Linked → Exec Run Linked
  unfolding link_student
  link_all guardian_ids [] acc = pure acc
  link_all guardian_ids (sid ∷ sids) acc =
      link_student guardian_ids sid acc >>= λ acc'. link_all guardian_ids sids acc'

  unfoldable pub generate_links : List StudentRow → List GuardianRow → Exec Run (List Link)
  unfolding link_all
  generate_links students guardians = do
    acc ←
        link_all (map (λ (g : GuardianRow). g.id) guardians)
          (map (λ (s : StudentRow). s.id) students) (record { links = []; seen = [] })
    pure acc.links

-- ===== src/Synthetic/Pairs.antt =====
-- add_link of the loop of generate_links: no pair twice, and the links of one student.
use sirius_vkr.Prelude.{
  ℕ, suc, ◌≤◌, ◌≡◌, refl, sym, ap, ◌∙◌, Bool, false, ◌&&◌, ◌||◌, String, List, [], ◌∷◌, ◌++◌, All,
  arith, inl, inr, Bool-cases, str_eq, str_eq_refl, str_eq_comm,
}
use sirius_vkr.Sql.{exists, count_where}
use sirius_vkr.Sql.Laws.{exists-append, count_where-append, All-append}
use sirius_vkr.Synthetic.{Link}
use sirius_vkr.Synthetic.Links.{Linked, is_pair, add_link}

abbrev pub has_link : String → String → List Link → Bool
has_link sid gid links =
    exists (λ (l : Link). str_eq l.student_id sid && str_eq l.guardian_id gid) links

-- How many links a student has.
abbrev pub count_links : String → List Link → ℕ
count_links sid links = count_where (λ (l : Link). str_eq l.student_id sid) links

-- No two links have the same student and the same guardian.
abbrev pub AreUnique : List Link → Type 0
AreUnique [] = Unit
AreUnique (l ∷ ls) = (has_link l.student_id l.guardian_id ls ≡ false) × AreUnique ls

or-false : (a b : Bool) → (a || b) ≡ false → (a ≡ false) × (b ≡ false)
or-false a b h = ground arith

AreUnique-append :
    (ls : List Link) (l : Link)
    → AreUnique ls
    → has_link l.student_id l.guardian_id ls ≡ false
    → AreUnique (ls ++ l ∷ [])
AreUnique-append [] l u h = (refl, tt)
AreUnique-append (x ∷ xs) l (fresh, u) h =
    let (apart, rest) =
      or-false (str_eq x.student_id l.student_id && str_eq x.guardian_id l.guardian_id)
        (has_link l.student_id l.guardian_id xs) h in
    let behind =
      exists-append
        (λ (t : Link). str_eq t.student_id x.student_id && str_eq t.guardian_id x.guardian_id) xs
        (l ∷ []) in
    (
      behind
          ∙ rw
              (
                fresh,
                str_eq_comm l.student_id x.student_id,
                str_eq_comm l.guardian_id x.guardian_id,
                apart,
              )
              refl,
      AreUnique-append xs l u rest,
    )

none-has_link :
    (sid gid : String) (links : List Link)
    → count_links sid links ≡ 0
    → has_link sid gid links ≡ false
none-has_link sid gid [] h = refl
none-has_link sid gid (l ∷ ls) h = ground (arith, none-has_link sid gid ls)

-- What the loop keeps: `seen` is the set of the links, and every link has a property.
pub record IsConsistent (P : Link → Type 0) (acc : Linked) : Type 0 where
  pub agree : (s g : String) → exists (is_pair s g) acc.seen ≡ has_link s g acc.links
  pub unique : AreUnique acc.links
  pub valid : All P acc.links

module _ (P : Link → Type 0) (sid gid : String) (acc : Linked) where
  pub add_link-IsConsistent :
      P (record { student_id = sid; guardian_id = gid })
      → IsConsistent P acc
      → IsConsistent P (add_link sid gid acc)
  unfolding add_link
  add_link-IsConsistent p h = elim (Bool-cases (exists (is_pair sid gid) acc.seen)) [
    | inl there ↦ rw there h
    | inr fresh ↦
        let l : Link = record { student_id = sid; guardian_id = gid } in
        rw fresh (record {
          agree = λ s g.
              exists-append (is_pair s g) acc.seen ((sid, gid) ∷ [])
              ∙ ap (λ b. b || (str_eq sid s && str_eq gid g || false)) (h.agree s g)
              ∙ sym (
                  exists-append (λ (l : Link). str_eq l.student_id s && str_eq l.guardian_id g)
                    acc.links (l ∷ []));
          unique = AreUnique-append acc.links l h.unique (sym (h.agree sid gid) ∙ fresh);
          valid = All-append P acc.links (l ∷ []) h.valid (p, tt);
        })
  ]

  -- The links of another student stay, and those of the student grow by one at most.
  pub add_link-count :
      (s : String)
      → (count_links s acc.links ≤ count_links s (add_link sid gid acc).links)
        × (count_links s (add_link sid gid acc).links ≤ suc (count_links s acc.links))
  unfolding add_link
  add_link-count s = ground (
    arith,
    count_where-append (λ (l : Link). str_eq l.student_id s) acc.links
        (record { student_id = sid; guardian_id = gid } ∷ []),
  )

  pub add_link-count_other :
      (s : String)
      → str_eq sid s ≡ false
      → count_links s (add_link sid gid acc).links ≡ count_links s acc.links
  unfolding add_link
  add_link-count_other s h = ground (
    arith,
    count_where-append (λ (l : Link). str_eq l.student_id s) acc.links
        (record { student_id = sid; guardian_id = gid } ∷ []),
  )

  -- The first link of a student.
  pub add_link-count_first :
      IsConsistent P acc
      → count_links sid acc.links ≡ 0
      → count_links sid (add_link sid gid acc).links ≡ 1
  unfolding add_link
  add_link-count_first h zero =
      let fresh : exists (is_pair sid gid) acc.seen ≡ false =
        h.agree sid gid ∙ none-has_link sid gid acc.links zero in
      let own = str_eq_refl sid in
      let grown =
        count_where-append (λ (l : Link). str_eq l.student_id sid) acc.links
          (record { student_id = sid; guardian_id = gid } ∷ []) in
      rw fresh (grown ∙ rw (zero, own) refl)

-- ===== src/Auth/Service/Emails.antt =====
-- The emails of accounts: the unique constraint of core.users under registration.
use mathlib.Core.Path.{subst}
use sirius_vkr.Prelude.{
  ◌≡◌, refl, sym, false, String, List, [], ◌∷◌, ◌++◌, arith, str_eq, str_eq_iff, inl, inr,
  Bool-cases,
}
use sirius_vkr.Sql.{exists}
use sirius_vkr.Sql.Laws.{exists-append}
use sirius_vkr.Models.Access.{RoleName, User}
use sirius_vkr.Database.{Db}
use sirius_vkr.Exec.{Result}
use sirius_vkr.Session.{Session}
use sirius_vkr.Security.{Packages}
use sirius_vkr.Auth.Service.{unknown_role, email_taken, new_user, register_user}
use sirius_vkr.Auth.Service.Accounts.{
  next_user, register_user_unknown, register_user_taken, register_user_ok,
}

-- An email belongs to one account.
abbrev pub HaveUniqueEmails : List User → Type 0
HaveUniqueEmails [] = Unit
HaveUniqueEmails (u ∷ us) = (exists (λ v. str_eq v.email u.email) us ≡ false) × HaveUniqueEmails us

-- A new account with an email that is not taken keeps the emails unique.
HaveUniqueEmails-append :
    (us : List User) (v : User)
    → HaveUniqueEmails us
    → exists (λ u. str_eq u.email v.email) us ≡ false
    → HaveUniqueEmails (us ++ v ∷ [])
HaveUniqueEmails-append [] v h n = (refl, tt)
HaveUniqueEmails-append (u ∷ us) v h n = (
  ground (
    arith,
    str_eq_iff u.email v.email,
    str_eq_iff v.email u.email,
    exists-append (λ w. str_eq w.email u.email) us (v ∷ []),
  ),
  HaveUniqueEmails-append us v h.1 (ground arith),
)

next_user_new :
    (packages : Packages) (email password : String) (roles : List RoleName) (s : Session)
    → email_taken email s.pending ≡ false
    → exists (λ u. str_eq u.email (next_user packages email password roles s).email) s.pending.users
      ≡ false
unfolding email_taken new_user
next_user_new packages email password roles s free = free

-- Where the emails of the pending and of the committed accounts are unique, those of the committed
-- accounts are after a registration, whatever its outcome.
pub register_user-HaveUniqueEmails :
    (packages : Packages) (email password : String) (roles : List RoleName) (s : Session)
    → HaveUniqueEmails s.pending.users
    → HaveUniqueEmails s.committed.users
    → HaveUniqueEmails (register_user packages email password roles s).1.committed.users
register_user-HaveUniqueEmails packages email password roles s p c =
    let after = λ (t : Result User × Session). HaveUniqueEmails t.1.committed.users in
    elim (Bool-cases (unknown_role roles s.pending)) [
      | inl unknown ↦
          subst after (sym (register_user_unknown packages email password roles s unknown)) c
      | inr known ↦ elim (Bool-cases (email_taken email s.pending)) [
        | inl taken ↦
            subst (λ (db : Db). HaveUniqueEmails db.users)
              (sym (register_user_taken packages email password roles s known taken).1) c
        | inr free ↦
            subst HaveUniqueEmails
              (sym (register_user_ok packages email password roles s known free).1)
              (HaveUniqueEmails-append s.pending.users (next_user packages email password roles s) p
                (next_user_new packages email password roles s free))
      ]
    ]

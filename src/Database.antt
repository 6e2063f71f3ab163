-- ===== src/Database.antt =====
-- The tables that the services read and write, each as the list of its rows in insertion order.
use sirius_vkr.Prelude.{List}
use sirius_vkr.Models.Access.{Role, User, UserRole}
use sirius_vkr.Models.People.{Student, Guardian, StudentGuardian}
use sirius_vkr.Models.Learning.{
  Course, Group, Enrollment, Activity, Module, Lesson, ScheduleSlot, StudentStats, Badge,
  StudentBadge,
}
use sirius_vkr.Models.Vault.{Consent, SubjectRequest, PseudonymMap}
use sirius_vkr.Models.Jobs.{Job}

pub record Db : Type 0 where
  pub roles : List Role
  pub users : List User
  pub user_roles : List UserRole
  pub students : List Student
  pub guardians : List Guardian
  pub student_guardian : List StudentGuardian
  pub courses : List Course
  pub modules : List Module
  pub lessons : List Lesson
  pub groups : List Group
  pub enrollments : List Enrollment
  pub activities : List Activity
  pub schedule_slots : List ScheduleSlot
  pub student_stats : List StudentStats
  pub badges : List Badge
  pub student_badges : List StudentBadge
  pub consents : List Consent
  pub subject_requests : List SubjectRequest
  pub pseudonym_map : List PseudonymMap
  pub jobs : List Job

-- ===== src/Tests/Data.antt =====
-- A small school: two students, one with an account, a parent, a teacher, two courses.
use sirius_vkr.Prelude.{ℕ, ◌+◌, true, none, some, [], ◌∷◌}
use sirius_vkr.Models.Access.{child, parent, teacher, admin, User}
use sirius_vkr.Models.People.{Student}
use sirius_vkr.Models.Learning.{Course, draft, archived, active, Group, Enrollment}
use sirius_vkr.Models.Vault.{student, export, new, SubjectRequest}
use sirius_vkr.Database.{Db}
use sirius_vkr.Session.{Session}

abbrev pub user : ℕ → User
user k = record {
  id = k;
  email = "a@b.ru";
  password_hash = "password";
  is_active = true;
  created_at = 1;
  updated_at = 1;
}

abbrev pub pupil : User
pupil = user 10

abbrev pub mother : User
mother = record (user 11) { email = "m@b.ru" }

abbrev pub tutor : User
tutor = record (user 12) { email = "t@b.ru" }

abbrev student_row : ℕ → Student
student_row k = record {
  id = k;
  last_name = 73 ∷ [];
  first_name = 65 ∷ [];
  middle_name = none;
  email = none;
  phone = none;
  birth_date = none;
  user_id = none;
  created_at = 1;
  updated_at = 1;
}

abbrev course : ℕ → Course
course k = record {
  id = k;
  title = "Course";
  direction = none;
  description = none;
  author_id = some 12;
  status = draft;
  created_at = 1;
  updated_at = 1;
}

abbrev group : ℕ → Group
group k = record { id = k; course_id = 40; name = "Group"; teacher_id = some 12; created_at = 1 }

abbrev enrollment : ℕ → ℕ → ℕ → Enrollment
enrollment k sid gid = record {
  id = k;
  student_id = sid;
  group_id = gid;
  status = active;
  progress = 70;
  enrolled_at = 5;
}

abbrev pub request : SubjectRequest
request = record {
  id = 70;
  subject_type = student;
  subject_id = 20;
  request_type = export;
  status = new;
  note = none;
  created_at = 5;
  due_at = 900;
  resolved_at = none;
}

abbrev pub db : Db
db = record {
  roles =
      record { id = 1; name = child }
      ∷ record { id = 2; name = parent }
      ∷ record { id = 3; name = teacher }
      ∷ record { id = 4; name = admin }
      ∷ [];
  users = pupil ∷ mother ∷ tutor ∷ [];
  user_roles =
      record { user_id = 10; role_id = 1 }
      ∷ record { user_id = 11; role_id = 2 }
      ∷ record { user_id = 12; role_id = 3 }
      ∷ [];
  students = record (student_row 20) { user_id = some 10 } ∷ student_row 21 ∷ [];
  guardians =
      record {
        id = 30;
        last_name = 73 ∷ [];
        first_name = 79 ∷ [];
        middle_name = none;
        email = none;
        phone = none;
        relation_type = none;
        user_id = some 11;
        created_at = 1;
        updated_at = 1;
      }
      ∷ [];
  student_guardian = record { student_id = 21; guardian_id = 30 } ∷ [];
  courses = course 40 ∷ record (course 41) { status = archived } ∷ [];
  modules = [];
  lessons = [];
  groups = group 50 ∷ group 51 ∷ [];
  enrollments = enrollment 60 20 50 ∷ [];
  activities = [];
  schedule_slots =
      record { id = 80; group_id = 50; weekday = 2; starts_at = 600; ends_at = 660; room = none }
      ∷ record { id = 81; group_id = 51; weekday = 1; starts_at = 600; ends_at = 660; room = none }
      ∷ [];
  student_stats = [];
  badges = [];
  student_badges = [];
  consents = [];
  subject_requests = request ∷ [];
  pseudonym_map = [];
  jobs = [];
}

abbrev pub s : Session
s = record { committed = db; pending = db; clock = 1000; fresh = λ n. 100 + n; drawn = 0 }

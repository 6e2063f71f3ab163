-- ===== src/Models/Learning.antt =====
-- models/learning.py: courses with their modules, lessons and groups, enrollments, the timetable
-- and the gamification tables.
use sirius_vkr.Prelude.{ℕ, Bool, true, false, String, Option}

-- The CHECK constraint ck_courses_status.
pub data CourseStatus : Type 0 where
  draft published archived : CourseStatus

abbrev pub is_archived : CourseStatus → Bool
is_archived archived = true
is_archived _ = false

abbrev pub is_published : CourseStatus → Bool
is_published published = true
is_published _ = false

-- core.courses
pub record Course : Type 0 where
  pub id : ℕ
  pub title : String
  pub direction : Option String
  pub description : Option String
  pub author_id : Option ℕ
  pub status : CourseStatus
  pub created_at : ℕ
  pub updated_at : ℕ

-- core.groups
pub record Group : Type 0 where
  pub id : ℕ
  pub course_id : ℕ
  pub name : String
  pub teacher_id : Option ℕ
  pub created_at : ℕ

-- The CHECK constraint ck_enrollments_status.
pub data EnrollmentStatus : Type 0 where
  active completed dropped : EnrollmentStatus

abbrev pub is_active_status : EnrollmentStatus → Bool
is_active_status active = true
is_active_status _ = false

abbrev pub is_completed_status : EnrollmentStatus → Bool
is_completed_status completed = true
is_completed_status _ = false

-- core.enrollments
pub record Enrollment : Type 0 where
  pub id : ℕ
  pub student_id : ℕ
  pub group_id : ℕ
  pub status : EnrollmentStatus
  pub progress : ℕ
  pub enrolled_at : ℕ

-- The CHECK constraint ck_activities_type.
pub data ActivityType : Type 0 where
  competition event : ActivityType

-- core.activities
pub record Activity : Type 0 where
  pub id : ℕ
  pub title : String
  pub type : ActivityType
  pub description : Option String
  pub starts_at : Option ℕ
  pub ends_at : Option ℕ
  pub created_at : ℕ

-- core.modules
pub record Module : Type 0 where
  pub id : ℕ
  pub course_id : ℕ
  pub title : String
  pub position : ℕ
  pub created_at : ℕ

-- core.lessons
pub record Lesson : Type 0 where
  pub id : ℕ
  pub module_id : ℕ
  pub title : String
  pub position : ℕ
  pub content : Option String
  pub material_url : Option String
  pub created_at : ℕ

-- core.schedule_slots; weekday 0 is Monday, a time of day is in minutes.
pub record ScheduleSlot : Type 0 where
  pub id : ℕ
  pub group_id : ℕ
  pub weekday : ℕ
  pub starts_at : ℕ
  pub ends_at : ℕ
  pub room : Option String

-- core.student_stats
pub record StudentStats : Type 0 where
  pub student_id : ℕ
  pub xp : ℕ
  pub level : ℕ
  pub streak_days : ℕ
  pub updated_at : ℕ

-- core.badges
pub record Badge : Type 0 where
  pub id : ℕ
  pub code : String
  pub title : String
  pub description : Option String
  pub icon : Option String

-- core.student_badges
pub record StudentBadge : Type 0 where
  pub student_id : ℕ
  pub badge_id : ℕ
  pub awarded_at : ℕ

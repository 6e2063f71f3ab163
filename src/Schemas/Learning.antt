-- ===== src/Schemas/Learning.antt =====
-- schemas/learning.py. A rate is in thousandths.
use Prim.Native.String.{count}
use sirius_vkr.Prelude.{ℕ, Bool, true, false, ◌&&◌, String, Option, none, some, List, [], ◌∷◌, leb}
use sirius_vkr.Models.Learning.{CourseStatus, EnrollmentStatus}

pub record CourseSummary : Type 0 where
  pub id : ℕ
  pub title : String
  pub direction : Option String
  pub description : Option String
  pub status : CourseStatus
  pub author_id : Option ℕ
  pub groups_count : ℕ
  pub lessons_count : ℕ

pub record LessonItem : Type 0 where
  pub id : ℕ
  pub title : String
  pub position : ℕ
  pub content : Option String
  pub material_url : Option String

pub record ModuleItem : Type 0 where
  pub id : ℕ
  pub title : String
  pub position : ℕ
  pub lessons : List LessonItem

pub record CourseGroupRef : Type 0 where
  pub id : ℕ
  pub name : String

-- `CourseDetail(CourseSummary)`, the inherited fields as one
pub record CourseDetail : Type 0 where
  pub summary : CourseSummary
  pub modules : List ModuleItem
  pub groups : List CourseGroupRef

pub record CourseCreate : Type 0 where
  pub title : String
  pub direction : Option String
  pub description : Option String

-- title: 1 to 300 characters; direction: at most 120
unfoldable pub valid_course : CourseCreate → Bool
valid_course body =
    leb 1 (count body.title)
    && leb (count body.title) 300
    && elim body.direction [ none ↦ true | some d ↦ leb (count d) 120 ]

pub record GroupMember : Type 0 where
  pub enrollment_id : ℕ
  pub student_id : ℕ
  pub student_name : String
  pub status : EnrollmentStatus
  pub progress : ℕ

pub record GroupSummary : Type 0 where
  pub id : ℕ
  pub course_id : ℕ
  pub course_title : String
  pub direction : Option String
  pub name : String
  pub teacher_id : Option ℕ
  pub members_count : ℕ

-- `GroupDetail(GroupSummary)`, the inherited fields as one
pub record GroupDetail : Type 0 where
  pub summary : GroupSummary
  pub members : List GroupMember

pub record GroupMembersUpdate : Type 0 where
  pub student_ids : List ℕ

-- Field(min_length=1)
unfoldable pub valid_members : GroupMembersUpdate → Bool
valid_members body = elim body.student_ids [ [] ↦ false | _ ∷ _ ↦ true ]

pub record EnrollmentCreate : Type 0 where
  pub group_id : ℕ

pub record EnrollmentItem : Type 0 where
  pub id : ℕ
  pub student_id : ℕ
  pub group_id : ℕ
  pub status : EnrollmentStatus
  pub progress : ℕ
  pub enrolled_at : ℕ

pub record ScheduleItem : Type 0 where
  pub id : ℕ
  pub group_id : ℕ
  pub group_name : String
  pub course_title : String
  pub direction : Option String
  pub weekday : ℕ
  pub starts_at : ℕ
  pub ends_at : ℕ
  pub room : Option String
  pub teacher_id : Option ℕ

pub record DirectionStat : Type 0 where
  pub direction : String
  pub students : ℕ
  pub courses : ℕ
  pub completion_rate : ℕ

pub record AnalyticsSummary : Type 0 where
  pub total_students : ℕ
  pub active_students : ℕ
  pub total_courses : ℕ
  pub published_courses : ℕ
  pub total_enrollments : ℕ
  pub completion_rate : ℕ
  pub by_direction : List DirectionStat

-- The `status` of a registry row: "active", "completed" or "none".
pub data StudentStatus : Type 0 where
  active completed not_enrolled : StudentStatus

pub record StudentRegistryItem : Type 0 where
  pub id : ℕ
  pub student_name : String
  pub birth_date : Option ℕ
  pub directions : List String
  pub courses_count : ℕ
  pub avg_progress : ℕ
  pub status : StudentStatus
  pub xp : ℕ
  pub level : ℕ

pub record DashboardCourse : Type 0 where
  pub course_id : ℕ
  pub course_title : String
  pub direction : Option String
  pub group_name : String
  pub progress : ℕ
  pub status : EnrollmentStatus

pub record DashboardResponse : Type 0 where
  pub student_id : ℕ
  pub student_name : String
  pub xp : ℕ
  pub level : ℕ
  pub streak_days : ℕ
  pub active_courses : ℕ
  pub completed_courses : ℕ
  pub courses : List DashboardCourse

pub record BadgeItem : Type 0 where
  pub code : String
  pub title : String
  pub description : Option String
  pub icon : Option String
  pub earned : Bool
  pub awarded_at : Option ℕ

pub record AchievementsResponse : Type 0 where
  pub student_id : ℕ
  pub xp : ℕ
  pub level : ℕ
  pub streak_days : ℕ
  pub next_level_xp : ℕ
  pub badges : List BadgeItem

pub record ChildItem : Type 0 where
  pub student_id : ℕ
  pub student_name : String
  pub xp : ℕ
  pub level : ℕ
  pub courses_count : ℕ
  pub avg_progress : ℕ

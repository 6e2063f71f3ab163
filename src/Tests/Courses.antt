-- ===== src/Tests/Courses.antt =====
-- Witnesses for groups, enrollments, the timetable, courses and analytics.
use sirius_vkr.Prelude.{true, ◌&&◌, ◌==◌, ◌≤◌, ◌≡◌, refl, none, some, [], ◌∷◌, All}
use sirius_vkr.Sql.Order.{IsOrdered}
use sirius_vkr.Models.Learning.{published}
use sirius_vkr.Exec.{ok, err, learning_error, integrity_error}
use sirius_vkr.Session.{get_db}
use sirius_vkr.Schemas.Learning.{CourseSummary, CourseCreate, EnrollmentItem}
use sirius_vkr.Learning.Groups.{
  update_group_members, place_all, transfer, course_of_group, existing_enrollments, in_course,
  by_student, place, insert_enrollment, move_enrollment, new_enrollment, enrollment_forbidden,
  move_forbidden, get_group_detail, group_summary,
}
use sirius_vkr.Learning.Groups.Others.{rows_of, update_group_members_unlisted}
use sirius_vkr.Learning.Groups.Update.{
  Transfers, update_group_members-Transfers, update_group_members_atomic, place_all_duplicate,
}
use sirius_vkr.Sql.{exists}
use sirius_vkr.Learning.Enrollments.{create_enrollment}
use sirius_vkr.Learning.Enrollments.Create.{
  Enrolls, HaveUniquePairs, create_enrollment_again, create_enrollment-HaveUniquePairs,
}
use sirius_vkr.Learning.Schedule.{get_schedule, list_schedule}
use sirius_vkr.Learning.Schedule.Scope.{item_le, list_schedule-IsOrdered}
use sirius_vkr.Learning.Schedule.Sight.{sees}
use sirius_vkr.Learning.Schedule.Shown.{is_item, get_schedule_shown}
use sirius_vkr.Learning.Courses.{
  create_course, get_course_detail, publish_course_route, publishable,
}
use sirius_vkr.Learning.Courses.Creation.{create_course-get_course_detail}
use sirius_vkr.Learning.Courses.Publish.{publish_course_found}
use sirius_vkr.Learning.Analytics.{analytics_summary}
use sirius_vkr.Learning.Analytics.Bounds.{analytics_summary-Bounded}
use sirius_vkr.Tests.Instances.{pg, rounding}
use sirius_vkr.Tests.Data.{pupil, db, s}

-- Student 20 moves from group 50 to group 51, student 21 is new.
update_group_members-Transfers_example :
    Transfers 51 (20 ∷ 21 ∷ []) db (update_group_members pg 51 (20 ∷ 21 ∷ []) s).1.committed
unfolding update_group_members transfer course_of_group existing_enrollments in_course by_student
    place_all place insert_enrollment move_enrollment new_enrollment enrollment_forbidden
    move_forbidden get_group_detail group_summary
update_group_members-Transfers_example =
    update_group_members-Transfers pg 51 (20 ∷ 21 ∷ []) s _ refl

-- Student 21 is listed twice: the call raises.
update_group_members_atomic_example :
    (get_db (update_group_members pg 51 (20 ∷ 21 ∷ 21 ∷ [])) s).1.committed ≡ s.committed
unfolding get_db update_group_members transfer course_of_group existing_enrollments in_course
    by_student place_all place insert_enrollment move_enrollment new_enrollment enrollment_forbidden
    move_forbidden
update_group_members_atomic_example =
    update_group_members_atomic pg 51 (20 ∷ 21 ∷ 21 ∷ []) s integrity_error refl

place_all_duplicate_example : (place_all 51 [] (21 ∷ 21 ∷ []) s).0 ≡ err integrity_error
unfolding by_student enrollment_forbidden
place_all_duplicate_example = place_all_duplicate 51 21 [] [] s refl refl

create_enrollment_again_example :
    let (r, s') = create_enrollment 21 51 s in
    let (r', s'') = create_enrollment 21 51 s' in
    (item : EnrollmentItem) × (r ≡ ok item)
    × Enrolls 21 51 item
    × (exists
          (λ e. e.id == item.id && (e.student_id == 21 && e.group_id == 51))
          s'.committed.enrollments
        ≡ true)
    × (r' ≡ err (learning_error "Already enrolled in this group"))
    × (s''.committed ≡ s'.committed)
unfolding enrollment_forbidden
create_enrollment_again_example = create_enrollment_again 21 51 s refl refl refl

create_enrollment-HaveUniquePairs_example :
    HaveUniquePairs (create_enrollment 21 50 s).1.committed.enrollments
create_enrollment-HaveUniquePairs_example =
    create_enrollment-HaveUniquePairs 21 50 s (refl, tt) (refl, tt)

get_schedule_shown_example :
    All (λ item. sees db 10 item.group_id ≡ true) (get_schedule pupil db)
    × All
        (λ sl. exists (is_item sl) (get_schedule pupil db) ≡ sees db 10 sl.group_id)
        db.schedule_slots
get_schedule_shown_example = get_schedule_shown pupil db (refl, (refl, tt))

list_schedule-IsOrdered_example : IsOrdered item_le (list_schedule none db)
list_schedule-IsOrdered_example = list_schedule-IsOrdered none db

publish_course_found_example :
    (c : CourseSummary) × ((publish_course_route pg 40 s).0 ≡ ok c)
    × (c.id ≡ 40)
    × (c.status ≡ published)
unfolding publishable
publish_course_found_example =
    publish_course_found pg 40 s refl ((λ _. refl), ((λ h. absurd (cc h)), tt))

analytics_summary-Bounded_example :
    let summary = analytics_summary pg rounding db in
    (summary.published_courses ≤ summary.total_courses)
    × (summary.completion_rate ≤ 1000)
    × All (λ stat. stat.completion_rate ≤ 1000) summary.by_direction
analytics_summary-Bounded_example = analytics_summary-Bounded pg rounding db

abbrev course_form : CourseCreate
course_form = record { title = "Physics"; direction = some "Science"; description = none }

create_course-get_course_detail_example :
    let (r, s') = create_course course_form 12 s in
    (summary : CourseSummary) × (r ≡ ok summary)
    × (get_course_detail pg 100 s'.committed
        ≡ some (record { summary = summary; modules = []; groups = [] }))
create_course-get_course_detail_example =
    create_course-get_course_detail pg course_form 12 s refl refl refl

-- Student 20 is not listed.
update_group_members_unlisted_example :
    rows_of 20 (update_group_members pg 51 (21 ∷ []) s).1.pending.enrollments
    ≡ rows_of 20 s.pending.enrollments
update_group_members_unlisted_example =
    update_group_members_unlisted pg 51 20 (21 ∷ []) s (refl, tt) refl

-- ===== src/Seed/Catalogue.antt =====
-- The constants of seed_demo.py: demo accounts, name pools, the course catalogue, the badges.
use sirius_vkr.Prelude.{ℕ, ◌+◌, ◌*◌, Bool, true, false, String, List, [], ◌∷◌}

abbrev pub demo_teacher_email : String
demo_teacher_email = "teacher@sirius27.local"

abbrev pub demo_child_email : String
demo_child_email = "child@sirius27.local"

abbrev pub demo_parent_email : String
demo_parent_email = "parent@sirius27.local"

unfoldable pub last_m : List String
last_m =
    "Иванов" ∷ "Петров" ∷ "Смирнов" ∷ "Кузнецов" ∷ "Соколов" ∷ "Попов" ∷ "Лебедев" ∷ "Козлов" ∷ []

unfoldable pub last_f : List String
last_f = "Иванова" ∷ "Петрова" ∷ "Смирнова" ∷ "Кузнецова" ∷ "Соколова" ∷ "Попова" ∷ "Лебедева" ∷ []

unfoldable pub first_m : List String
first_m = "Артём" ∷ "Дмитрий" ∷ "Максим" ∷ "Иван" ∷ "Егор" ∷ "Михаил" ∷ "Никита" ∷ "Тимофей" ∷ []

unfoldable pub first_f : List String
first_f = "Анна" ∷ "Мария" ∷ "София" ∷ "Дарья" ∷ "Виктория" ∷ "Полина" ∷ "Алиса" ∷ "Ева" ∷ []

unfoldable pub mid_m : List String
mid_m = "Александрович" ∷ "Сергеевич" ∷ "Дмитриевич" ∷ "Иванович" ∷ "Андреевич" ∷ []

unfoldable pub mid_f : List String
mid_f = "Александровна" ∷ "Сергеевна" ∷ "Дмитриевна" ∷ "Ивановна" ∷ "Андреевна" ∷ []

-- An entry of "lessons"; "material" is false where the key is missing.
pub record LessonSpec : Type 0 where
  pub title : String
  pub content : String
  pub material : Bool

-- An entry of "modules".
pub record ModuleSpec : Type 0 where
  pub title : String
  pub lessons : List LessonSpec

-- A tuple of "schedule"; a time of day is in minutes.
pub record SlotSpec : Type 0 where
  pub weekday : ℕ
  pub starts : ℕ
  pub ends : ℕ
  pub room : String

-- An entry of COURSES.
pub record CourseSpec : Type 0 where
  pub title : String
  pub direction : String
  pub description : String
  pub modules : List ModuleSpec
  pub groups : List String
  pub schedule : List SlotSpec

-- An entry of BADGES.
pub record BadgeSpec : Type 0 where
  pub code : String
  pub title : String
  pub description : String
  pub icon : String

-- `time.fromisoformat("hh:mm")`
abbrev clock_time : ℕ → ℕ → ℕ
clock_time hours minutes = hours * 60 + minutes

abbrev science : CourseSpec
science = record {
  title = "Юные исследователи";
  direction = "Наука";
  description = "Экспериментальная физика и химия для любознательных.";
  modules =
      record {
        title = "Введение в эксперимент";
        lessons =
            (record {
              title = "Лабораторный журнал";
              content = "Как фиксировать наблюдения.";
              material = false;
            }
              ∷ record {
                title = "Техника безопасности";
                content = "Правила работы в лаборатории.";
                material = false;
              }
              ∷ []);
      }
      ∷ record {
        title = "Первые опыты";
        lessons =
            (record { title = "Кристаллы"; content = "Выращиваем кристаллы соли."; material = true }
              ∷ record {
                title = "Плотность жидкостей";
                content = "Слоёная радуга в стакане.";
                material = false;
              }
              ∷ []);
      }
      ∷ [];
  groups = "Наука-А" ∷ "Наука-Б" ∷ [];
  schedule =
      record { weekday = 0; starts = clock_time 16 0; ends = clock_time 17 30; room = "Лаб. 201" }
      ∷ record { weekday = 2; starts = clock_time 16 0; ends = clock_time 17 30; room = "Лаб. 201" }
      ∷ [];
}

abbrev art : CourseSpec
art = record {
  title = "Студия изобразительного искусства";
  direction = "Искусство";
  description = "Рисунок, живопись и композиция для начинающих художников.";
  modules =
      record {
        title = "Основы рисунка";
        lessons =
            (record { title = "Линия и форма"; content = "Учимся видеть силуэт."; material = false }
              ∷ record { title = "Светотень"; content = "Объём через тон."; material = true }
              ∷ []);
      }
      ∷ record {
        title = "Цвет";
        lessons =
            (record {
              title = "Цветовой круг";
              content = "Тёплые и холодные цвета.";
              material = false;
            }
              ∷ []);
      }
      ∷ [];
  groups = "Искусство-А" ∷ "Искусство-Б" ∷ [];
  schedule =
      record {
        weekday = 1;
        starts = clock_time 15 0;
        ends = clock_time 16 30;
        room = "Мастерская 1";
      }
      ∷ record {
        weekday = 3;
        starts = clock_time 15 0;
        ends = clock_time 16 30;
        room = "Мастерская 1";
      }
      ∷ [];
}

abbrev sport : CourseSpec
sport = record {
  title = "Спортивная гимнастика";
  direction = "Спорт";
  description = "Общая физическая подготовка и основы гимнастики.";
  modules =
      record {
        title = "ОФП";
        lessons =
            (record {
              title = "Разминка";
              content = "Базовый комплекс упражнений.";
              material = false;
            }
              ∷ record {
                title = "Растяжка";
                content = "Гибкость и профилактика травм.";
                material = false;
              }
              ∷ []);
      }
      ∷ [];
  groups = "Спорт-А" ∷ "Спорт-Б" ∷ [];
  schedule =
      record { weekday = 1; starts = clock_time 17 30; ends = clock_time 19 0; room = "Зал 3" }
      ∷ record { weekday = 4; starts = clock_time 17 30; ends = clock_time 19 0; room = "Зал 3" }
      ∷ [];
}

unfoldable pub courses : List CourseSpec
courses = science ∷ art ∷ sport ∷ []

unfoldable pub badges : List BadgeSpec
badges =
    record {
      code = "first_step";
      title = "Первый шаг";
      description = "Записался на первый курс.";
      icon = "rocket";
    }
    ∷ record {
      code = "halfway";
      title = "На полпути";
      description = "Прогресс по курсу достиг 50%.";
      icon = "flag";
    }
    ∷ record {
      code = "course_done";
      title = "Курс пройден";
      description = "Завершил курс на 100%.";
      icon = "trophy";
    }
    ∷ record {
      code = "streak_7";
      title = "Неделя подряд";
      description = "Серия активности 7 дней.";
      icon = "fire";
    }
    ∷ record {
      code = "explorer";
      title = "Исследователь";
      description = "Записан на курсы трёх направлений.";
      icon = "compass";
    }
    ∷ []

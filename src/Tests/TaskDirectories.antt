-- ===== src/Tests/TaskDirectories.antt =====
-- Directories of tasks.
use bmd_compute.Prelude.{true, false, ok, err, ◌≡◌, ◌↔◌, ◌++◌, refl, List, [], ◌∷◌}
use bmd_compute.Prelude.Text.{codes}
use bmd_compute.TaskSet.Values.{TaskSetError, is_task_id}
use bmd_compute.TaskSet.Paths.{normpath, dirname, stage_task_dir, stage_task_dirs}
use bmd_compute.TaskSet.Directories.{IsStageRoot, stage_task_dir_iff}

normal_form : normpath (codes "/a//b/./../c/../../d/") ≡ codes "/d"
unfolding normpath bmd_compute.Prelude.Text.codes_eq bmd_compute.TaskSet.Paths.push_parts
    bmd_compute.TaskSet.Paths.push_part bmd_compute.Prelude.Split.split_on
normal_form = refl

two_slashes : normpath (codes "//a/..") ≡ codes "//"
unfolding normpath bmd_compute.Prelude.Text.codes_eq bmd_compute.TaskSet.Paths.push_parts
    bmd_compute.TaskSet.Paths.push_part bmd_compute.Prelude.Split.split_on
two_slashes = refl

directory_name : dirname (codes "/a/b//c") ≡ codes "/a/b"
unfolding dirname bmd_compute.TaskSet.Paths.head_of bmd_compute.TaskSet.Paths.without_slashes
directory_name = refl

refuses_parent :
    stage_task_dir (codes "/work/../forces") "disp_001" ≡ err TaskSetError.invalid_stage_directory
unfolding stage_task_dir bmd_compute.TaskSet.Paths.is_invalid_root normpath
    bmd_compute.Prelude.Text.codes_eq bmd_compute.TaskSet.Paths.push_parts
    bmd_compute.TaskSet.Paths.push_part bmd_compute.Prelude.Split.split_on
refuses_parent = refl

two_tasks :
    stage_task_dirs (codes "/work/forces") ("disp_001" ∷ "disp_002" ∷ [])
    ≡ ok (
        ("disp_001", codes "/work/forces/tasks/disp_001")
        ∷ ("disp_002", codes "/work/forces/tasks/disp_002")
        ∷ [])
unfolding stage_task_dirs stage_task_dir bmd_compute.TaskSet.Paths.is_invalid_root normpath
    bmd_compute.TaskSet.Paths.stage_task_relative_dir bmd_compute.TaskSet.Values.validate_task_id
    dirname bmd_compute.TaskSet.Paths.head_of bmd_compute.TaskSet.Paths.without_slashes
    bmd_compute.Submission.join_path bmd_compute.Prelude.Text.codes_eq
    bmd_compute.TaskSet.Paths.push_parts bmd_compute.TaskSet.Paths.push_part
    bmd_compute.Prelude.Split.split_on
two_tasks = refl

stage_task_dir_iff_example :
    (stage_task_dir (codes "/work/forces") "disp_001" ≡ ok (codes "/work/forces/tasks/disp_001"))
    ↔ (IsStageRoot (codes "/work/forces")
        × (is_task_id (codes "disp_001") ≡ true)
        × (codes "/work/forces/tasks/disp_001"
            ≡ codes "/work/forces" ++ (codes "/tasks/" ++ codes "disp_001")))
stage_task_dir_iff_example =
    stage_task_dir_iff (codes "/work/forces") "disp_001" (codes "/work/forces/tasks/disp_001")

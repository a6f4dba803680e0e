-- ===== src/Lm.antt =====
-- server/lm.go: live migration. The constants, and the messages between the two hosts.
pub mod Dump
pub mod Messages
pub mod Restore
pub mod Migration
use container_cloudlet.Common.{ℕ, String, List, [], ◌∷◌}

abbrev pub host_msg_port : ℕ
host_msg_port = 19999

abbrev pub host_data_port : ℕ
host_data_port = 19998

abbrev pub host_resume_sig_port : ℕ
host_resume_sig_port = 19997

abbrev pub pod_rsync_port : ℕ
pod_rsync_port = 873

abbrev pub dump_images_dir : String
dump_images_dir = "/tmp/cloudlet-live-migration/images"

abbrev pub rsync_module_name : String
rsync_module_name = "tmp"

abbrev pub rsync_module_directory : String
rsync_module_directory = "/tmp"

abbrev pub post_resume_script_path : String
post_resume_script_path = "/tmp/cloudlet-live-migration.post-resume.sh"

abbrev pub main_pid_file_path : String
main_pid_file_path = "/MAIN_PID"

abbrev pub req_pre_dump : ℕ
req_pre_dump = 0x01

abbrev pub req_dump : ℕ
req_dump = 0x02

abbrev pub resp_ok : ℕ
resp_ok = 0x00

abbrev pub resp_error : ℕ
resp_error = 0xff

unfoldable pub get_restore_pod_command : List String × List String
get_restore_pod_command = ("/bin/sh" ∷ "-c" ∷ "--" ∷ [], "while true; do sleep 60; done" ∷ [])

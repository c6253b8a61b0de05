-- ===== src/Cmd.antt =====
-- src/cmd.h: the characters that begin a message, on the network and in the manifest.
use burp.Prelude.{ℕ}

abbrev pub cmd_datapth : ℕ
cmd_datapth = b't'

abbrev pub cmd_stat : ℕ
cmd_stat = b'r'

abbrev pub cmd_file : ℕ
cmd_file = b'f'

abbrev pub cmd_enc_file : ℕ
cmd_enc_file = b'y'

abbrev pub cmd_directory : ℕ
cmd_directory = b'd'

abbrev pub cmd_soft_link : ℕ
cmd_soft_link = b'l'

abbrev pub cmd_hard_link : ℕ
cmd_hard_link = b'L'

abbrev pub cmd_special : ℕ
cmd_special = b's'

abbrev pub cmd_metadata : ℕ
cmd_metadata = b'm'

abbrev pub cmd_enc_metadata : ℕ
cmd_enc_metadata = b'n'

abbrev pub cmd_efs_file : ℕ
cmd_efs_file = b'k'

abbrev pub cmd_vss : ℕ
cmd_vss = b'v'

abbrev pub cmd_enc_vss : ℕ
cmd_enc_vss = b'V'

abbrev pub cmd_vss_t : ℕ
cmd_vss_t = b'u'

abbrev pub cmd_enc_vss_t : ℕ
cmd_enc_vss_t = b'U'

abbrev pub cmd_gen : ℕ
cmd_gen = b'c'

abbrev pub cmd_error : ℕ
cmd_error = b'e'

abbrev pub cmd_append : ℕ
cmd_append = b'a'

abbrev pub cmd_interrupt : ℕ
cmd_interrupt = b'i'

abbrev pub cmd_warning : ℕ
cmd_warning = b'w'

abbrev pub cmd_end_file : ℕ
cmd_end_file = b'x'

abbrev pub cmd_file_changed : ℕ
cmd_file_changed = b'z'

-- ===== src/Phase4.antt =====
-- src/backup_phase4_server.c: the data files of the new backup are put in place, and the old ones
-- become reverse deltas.
pub mod Jiggle
pub mod Deletions

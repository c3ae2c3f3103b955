-- ===== src/BackupCheck/Failed.antt =====
-- The number of failed backups of pkg/inspection/backupcheck.go.

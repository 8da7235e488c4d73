-- ===== src/SshKeys/Whole.antt =====
-- A listing that fits into one page.

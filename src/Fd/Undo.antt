-- ===== src/Fd/Undo.antt =====
-- user/lib/fd.c: dup leaves the descriptor that it copies where it is, also when it fails.

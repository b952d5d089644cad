-- ===== src/Numbers/Tests.antt =====


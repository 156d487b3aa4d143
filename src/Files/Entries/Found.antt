-- ===== src/Files/Entries/Found.antt =====
-- Properties of what a peer that searches learns of a shared file.

-- ===== src/Gossip/Node/Safe.antt =====
-- Properties of the listening routines on the packets that the dispatcher hands them.

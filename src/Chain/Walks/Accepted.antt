-- ===== src/Chain/Walks/Accepted.antt =====
-- gossiper/blockchain.go: a block that `checkValidTransactionsBackwards` accepts against the names that
-- `getTakenNames` collects.

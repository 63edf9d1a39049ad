-- ===== src/Apicheck/Hidden.antt =====
-- cmd/apicheck/main.go: what a package does not export does not show in its snapshot.

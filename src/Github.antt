-- ===== src/Github.antt =====
-- internal/github: the client of the GitHub API.
pub mod Reviews

-- ===== src/Codecontext/Content/Fallback.antt =====
-- Which lines fallbackContent (internal/codecontext/codecontext.go) shows.

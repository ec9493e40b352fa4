-- ===== src/Filters.antt =====
-- src/common/filters: what an exception is answered with.
pub mod HttpExceptionFilter
pub mod Answers

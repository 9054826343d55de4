-- ===== src/Middleware.antt =====
-- core/middleware: the middlewares of a run and the pipeline that chains them.
pub mod Pipeline
pub mod Types
pub mod Auth
pub mod RateLimit
pub mod CostGuard
pub mod Cache

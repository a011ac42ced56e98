-- ===== src/Http.antt =====
-- src/HTTP and src/Protocol/HttpProtocol.cpp: HTTP requests, their parser, and the example service.
pub mod Message
pub mod Context
pub mod Service

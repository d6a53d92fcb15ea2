-- ===== src/Http.antt =====
-- src/afb-hreq.c, src/afb-hsrv.c and src/afb-hswitch.c: how an HTTP request finds its handler.
pub mod Request
pub mod Handlers
pub mod Subpaths
pub mod Prefixes
pub mod Routing
pub mod Parts
pub mod Switch
pub mod Calls
pub mod Choice

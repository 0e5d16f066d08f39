-- ===== src/Merge.antt =====
-- quanttick/websocket_data_merge.go
pub mod Coalesce
pub mod Streaming
pub mod Less
pub mod Insert
pub mod Filter

-- ===== src/Oncall.antt =====
-- internal/oncall/schedule.go, and the records of internal/store/models.go that it reads. JSON documents
-- are held as what json.Unmarshal makes of them at each type that the code decodes them at.
pub mod Types
pub mod Window
pub mod Layers
pub mod Rotation
pub mod Manager

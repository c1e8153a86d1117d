-- ===== src/Knowledge.antt =====
-- knowledge_backbone.py: permissions, duplicates and precedence of retrieved rows.
pub mod Backbone
pub mod Permitted
mod Tests

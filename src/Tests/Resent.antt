-- ===== src/Tests/Resent.antt =====
-- A private message whose frame arrives twice, at concrete inputs.
use my_chat_project.Service.Conns
use my_chat_project.Client.Pending

-- ===== src/Service/Texts.antt =====
-- The texts of the responses, as the UTF-8 bytes of the string literals in chatservice.cpp.
use my_chat_project.Prelude.{[], ◌∷◌, Str}

-- 该帐号已登陆: the account is already logged in.
abbrev pub already_online : Str
already_online =
    232 ∷ 175 ∷ 165 ∷ 229 ∷ 184 ∷ 144 ∷ 229 ∷ 143 ∷ 183 ∷ 229 ∷ 183 ∷ 178 ∷ 231 ∷ 153 ∷ 187 ∷ 233
    ∷ 153 ∷ 134 ∷ []

-- 用户名或密码错误: wrong user name or password.
abbrev pub wrong_password : Str
wrong_password =
    231 ∷ 148 ∷ 168 ∷ 230 ∷ 136 ∷ 183 ∷ 229 ∷ 144 ∷ 141 ∷ 230 ∷ 136 ∷ 150 ∷ 229 ∷ 175 ∷ 134 ∷ 231
    ∷ 160 ∷ 129 ∷ 233 ∷ 148 ∷ 153 ∷ 232 ∷ 175 ∷ 175 ∷ []

-- 注册失败: registration failed.
abbrev pub reg_failed : Str
reg_failed = 230 ∷ 179 ∷ 168 ∷ 229 ∷ 134 ∷ 140 ∷ 229 ∷ 164 ∷ 177 ∷ 232 ∷ 180 ∷ 165 ∷ []

-- 群组创建成功: the group was created.
abbrev pub group_created : Str
group_created =
    231 ∷ 190 ∷ 164 ∷ 231 ∷ 187 ∷ 132 ∷ 229 ∷ 136 ∷ 155 ∷ 229 ∷ 187 ∷ 186 ∷ 230 ∷ 136 ∷ 144 ∷ 229
    ∷ 138 ∷ 159 ∷ []

-- 入群成功: joined the group.
abbrev pub group_joined : Str
group_joined = 229 ∷ 133 ∷ 165 ∷ 231 ∷ 190 ∷ 164 ∷ 230 ∷ 136 ∷ 144 ∷ 229 ∷ 138 ∷ 159 ∷ []

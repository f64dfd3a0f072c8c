-- ===== src/Console/Texts/Entry.antt =====
-- src/modules/mgr/mgr_acc.cpp: the literal texts of its pages and queries.
use evcp.Base.{[], ◌∷◌, Bytes}
use evcp.Base.Text.{texts}

-- The page of the menu
unfoldable pub desktop_page : Bytes
desktop_page = texts (
    "<?xml version=\"1.0\" encoding=\"UTF-8\"?>"
    ∷ "<doc mtime=\"45gvergv4rg\" binary=\"/mgr/\" theme=\"/sirius/\" "
    ∷ "fixpng=\"no\" localdir=\"local/\" img=\"\" css=\"main.css\" logolink=\"/mgr/\" logo=\"logo-vdsmgr.png\" >"
    ∷ "<mainmenu startform=\"\" startpage=\"list\">" ∷ "<node name=\"sitemonitor\">"
    ∷ "<node name=\"sitemon\"  action=\"sitemon\" />" ∷ "</node>" ∷ "<node name=\"sitemonitorctl\">"
    ∷ "<node name=\"sitegroups\"  action=\"sitegroups\" />"
    ∷ "<node name=\"sites\"  action=\"sites\" />" ∷ "</node>" ∷ "</mainmenu>" ∷ "<messages>"
    ∷ "<msg name=\"title\">Главная страница</msg>" ∷ "<msg name=\"logout\">Выйти</msg>"
    ∷ "<msg name=\"menu_sitemonitorctl\">Настройки мониторинга</msg>"
    ∷ "<msg name=\"menu_sitemonitor\">Мониторинг</msg>"
    ∷ "<msg name=\"menu_sitegroups\">Группы сайтов</msg>" ∷ "<msg name=\"menu_sites\">Сайты</msg>"
    ∷ "<msg name=\"menu_sitemon\">Мониторинг</msg>" ∷ "<msg name=\"help2\">Помощь</msg>"
    ∷ "<msg name=\"cpset\">Настройки</msg>" ∷ "<msg name=\"msg_m0\">ЩИТО?</msg>"
    ∷ "<msg name=\"m0\">WAS?</msg>" ∷ "</messages>"
    ∷ "<user level=\"server\" hostname=\"myservername\">admin" ∷ "</user>"
    ∷ "<path level=\"server\">admin</path>"
    ∷ "<copyright href=\"http://skilltex.kz/\">SKILLTEX</copyright>" ∷ "<pwgenlen>'8'</pwgenlen>"
    ∷ "<pwgencharacters>1234567890qwertyuiopasdfghjklzxcvbnmASDFGHJKLQWERTYUIOPZXCVBNM</pwgencharacters>"
    ∷ "</doc>" ∷ [])

-- The page of the login
unfoldable pub login_page : Bytes
login_page = texts (
    "<?xml version=\"1.0\" encoding=\"UTF-8\"?>"
    ∷ "<doc mtime=\"45gvergv4rg\" binary=\"/mgr/\" theme=\"/sirius/\" "
    ∷ "fixpng=\"no\" localdir=\"local/\" img=\"vdsmgr\" css=\"main.css\" logolink=\"/mgr/\" logo=\"logo-vdsmgr.png\" >"
    ∷ "<loginform theme=\"/sirius/\" lang=\"ru\" />" ∷ "<messages>"
    ∷ "<msg name=\"title\">Авторизация</msg>" ∷ "<msg name=\"theme\">Тема оформления</msg>"
    ∷ "<msg name=\"passwd\">Ваш пароль</msg>" ∷ "<msg name=\"user\">Ваш логин</msg>"
    ∷ "<msg name=\"newpasswd\">Новый пароль</msg>"
    ∷ "<msg name=\"newconfirm\">Подтвердите пароль</msg>" ∷ "<msg name=\"enter\">Войти</msg>"
    ∷ "</messages>" ∷ "<copyright href=\"http://skilltex.kz/\" >SKILLTEX</copyright>" ∷ "</doc>"
    ∷ [])
